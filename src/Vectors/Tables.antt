-- ===== src/Vectors/Tables.antt =====
-- The three tables of the generator.
use crypt.Base.{◌≡◌, refl, List, All, some, length}
use crypt.Base.Outcome.{ok}
use crypt.Wire.Hex
use crypt.Cipher.{Aead}
use crypt.Cbc.{Mode}
use crypt.Sign.{Hmac}
use crypt.Vectors.{repeat_hex}
use crypt.Vectors.Aead.{AeadSpec, AeadVector, aead_specs, aead_vector, aead_vectors}
use crypt.Vectors.Hmac.{HmacSpec, HmacVector, hmac_specs, hmac_vector, hmac_vectors}
use crypt.Vectors.Cbc.{CbcSpec, CbcVector, cbc_specs, cbc_vector, cbc_vectors}
use crypt.Vectors.Document.{Document, vector_notes, generate}
use crypt.Vectors.Agree.{
  for_each-All, IsAeadRow, AeadAgrees, aead_vector-agrees, HmacAgrees, hmac_vector-agrees,
}
use crypt.Vectors.Blocks.{CbcAgrees, cbc_vector-agrees}

module _ (gcm : Aead) where
  -- A row of the table, with what its texts decode to.
  aead_row :
      (s : AeadSpec)
      → IsAeadRow s
          (Hex.decode_prefix s.key_hex)
          (Hex.decode_prefix s.nonce_hex)
          (Hex.decode_prefix s.aad_hex)
          (Hex.decode_prefix s.plaintext_hex)
      → (v : AeadVector) × (aead_vector gcm s ≡ ok v) × AeadAgrees gcm v
  aead_row s row =
      aead_vector-agrees gcm s (Hex.decode_prefix s.key_hex) (Hex.decode_prefix s.nonce_hex)
        (Hex.decode_prefix s.aad_hex) (Hex.decode_prefix s.plaintext_hex) row

  aead_table :
      (vs : List AeadVector) × (aead_vectors gcm ≡ ok vs)
      × (length vs ≡ 5)
      × All (AeadAgrees gcm) vs
  unfolding aead_vectors Hex.decode Hex.decode_prefix Hex.encode Hex.digit_of Hex.nibble_of
      Hex.join_nibbles Hex.push_pair repeat_hex
  aead_table = for_each-All (aead_vector gcm) (AeadAgrees gcm) aead_specs (
    aead_row _ (refl, refl, refl, refl, refl, refl),
    (
      aead_row _ (refl, refl, refl, refl, refl, refl),
      (
        aead_row _ (refl, refl, refl, refl, refl, refl),
        (
          aead_row _ (refl, refl, refl, refl, refl, refl),
          (aead_row _ (refl, refl, refl, refl, refl, refl), tt),
        ),
      ),
    ),
  )

module _ (h : Hmac) where
  hmac_row :
      (s : HmacSpec)
      → Hex.decode s.key_hex ≡ some (Hex.decode_prefix s.key_hex)
      → Hex.decode s.data_hex ≡ some (Hex.decode_prefix s.data_hex)
      → (v : HmacVector) × (hmac_vector h s ≡ ok v) × HmacAgrees h v
  hmac_row s hk ht =
      hmac_vector-agrees h s (Hex.decode_prefix s.key_hex) (Hex.decode_prefix s.data_hex) hk ht

  hmac_table :
      (vs : List HmacVector) × (hmac_vectors h ≡ ok vs) × (length vs ≡ 4) × All (HmacAgrees h) vs
  unfolding hmac_vectors Hex.decode Hex.decode_prefix Hex.encode Hex.digit_of Hex.nibble_of
      Hex.join_nibbles Hex.push_pair repeat_hex
  hmac_table = for_each-All (hmac_vector h) (HmacAgrees h) hmac_specs (
    hmac_row _ refl refl,
    (hmac_row _ refl refl, (hmac_row _ refl refl, (hmac_row _ refl refl, tt))),
  )

module _ (mode : Mode) where
  cbc_row :
      (s : CbcSpec)
      → Hex.decode s.key_hex ≡ some (Hex.decode_prefix s.key_hex)
      → Hex.decode s.iv_hex ≡ some (Hex.decode_prefix s.iv_hex)
      → Hex.decode s.plaintext_hex ≡ some (Hex.decode_prefix s.plaintext_hex)
      → length (Hex.decode_prefix s.key_hex) ≡ 32
      → length (Hex.decode_prefix s.iv_hex) ≡ 16
      → (v : CbcVector) × (cbc_vector mode s ≡ ok v) × CbcAgrees mode v
  cbc_row s =
      cbc_vector-agrees mode s (Hex.decode_prefix s.key_hex) (Hex.decode_prefix s.iv_hex)
        (Hex.decode_prefix s.plaintext_hex)

  cbc_table :
      (vs : List CbcVector) × (cbc_vectors mode ≡ ok vs) × (length vs ≡ 3) × All (CbcAgrees mode) vs
  unfolding cbc_vectors Hex.decode Hex.decode_prefix Hex.encode Hex.digit_of Hex.nibble_of
      Hex.join_nibbles Hex.push_pair repeat_hex
  cbc_table = for_each-All (cbc_vector mode) (CbcAgrees mode) cbc_specs (
    cbc_row _ refl refl refl refl refl,
    (cbc_row _ refl refl refl refl refl, (cbc_row _ refl refl refl refl refl, tt)),
  )

-- The generator makes a document of 5 vectors of AES-GCM, 4 of HMAC and 3 of CBC, and the package
-- agrees with each. Its texts are hex; `sealWithNonce` with the nonce returns the token of AES-GCM
-- and `Open` opens it; `Sign` makes the tag and `Verify` accepts it; `EncryptCBC` with the IV drawn
-- from the source returns the text of CBC and `DecryptCBC` decrypts it.
pub generate-agrees :
    (gcm : Aead) (h : Hmac) (mode : Mode)
    → (doc : Document) × (generate gcm h mode ≡ ok doc)
      × (length doc.aead ≡ 5)
      × All (AeadAgrees gcm) doc.aead
      × (length doc.hmac ≡ 4)
      × All (HmacAgrees h) doc.hmac
      × (length doc.cbc ≡ 3)
      × All (CbcAgrees mode) doc.cbc
unfolding generate
generate-agrees gcm h mode =
    let (vs, aeads, five, all_aead) = aead_table gcm in
    let (ws, hmacs, four, all_hmac) = hmac_table h in
    let (xs, cbcs, three, all_cbc) = cbc_table mode in
    let doc : Document = record {
      version = 1;
      notes = vector_notes;
      aead = vs;
      hmac = ws;
      cbc = xs;
    } in
    (doc, rw (generate, aeads, hmacs, cbcs) refl, five, all_aead, four, all_hmac, three, all_cbc)
