-- ===== src/Kms/InMemory.antt =====
-- `EnvelopeSealer` over `StaticKMS`.
use crypt.Base.{
  ◌+◌, ◌≤◌, ◌≡◌, refl, [], length, arith, take, drop, some, length-take, length-drop, All-drop,
}
use crypt.Base.Outcome.{ok}
use crypt.Wire.{Bytes, IsByte, IsBytes}
use crypt.Entropy.{Reader, random_bytes}
use crypt.Entropy.Laws.{draw-enough}
use crypt.Cipher.{Aead}
use crypt.Format.{version_aead_v1}
use crypt.Format.Sealed.{token_of, length-token_of}
use crypt.Gcm.Sealed.{seal_lem}
use crypt.Assoc.{lookup}
use crypt.Kms.Seal.{EnvelopeSealer, StaticKms, lookup_kek, static_generate, envelope_seal}
use crypt.Kms.Open.{envelope_open}
use crypt.Kms.Static.{static_kms, static_kms-Serves}
use crypt.Kms.Envelope.{envelope_open-envelope_seal, envelope_seal_long}

module _ (c : Aead) (s : StaticKms) (key_id kek : Bytes) where
  static_generate_lem :
      (r : Reader)
      → lookup key_id s.keks ≡ some kek
      → length kek ≡ 32
      → 44 ≤ length r.content
      → static_generate c s key_id r ≡ (
        ok (
          take 32 r.content,
          token_of c version_aead_v1 kek (take 12 (drop 32 r.content)) (take 32 r.content) [],
        ),
        record r { content = drop 12 (drop 32 r.content) },
      )
  unfolding static_generate lookup_kek random_bytes
  static_generate_lem r found hk enough =
      rw
        (
          found,
          draw-enough 32 r (omega arith),
          seal_lem c kek (take 32 r.content) [] (record r { content = drop 32 r.content }) hk
              (omega (arith, length-drop 32 r.content)),
        )
        refl

  -- The sealer for a key id of the service.
  abbrev pub static_sealer : EnvelopeSealer
  static_sealer = record { kms = static_kms c s; key_id = key_id }

  -- With a key of 32 bytes under the id and 56 bytes in the source, `Seal` uses these up and
  -- returns a token that `Open` opens.
  pub static_envelope :
      (plain aad : Bytes) (r : Reader)
      → lookup key_id s.keks ≡ some kek
      → length kek ≡ 32
      → IsBytes plain
      → IsBytes r.content
      → 56 ≤ length r.content
      → (token : Bytes) × (r' : Reader) × (envelope_seal c static_sealer plain aad r
          ≡ (ok token, r'))
        × (length r'.content + 56 ≡ length r.content)
        × IsBytes r'.content
        × (48 ≤ length token)
        × (envelope_open c static_sealer token aad ≡ ok plain)
  unfolding static_kms
  static_envelope plain aad r found hk hp hr enough =
      let dek : Bytes = take 32 r.content in
      let nonce : Bytes = take 12 (drop 32 r.content) in
      let wrapped : Bytes = token_of c version_aead_v1 kek nonce dek [] in
      let r' : Reader = record r { content = drop 12 (drop 32 r.content) } in
      let sizes : (length nonce ≡ 12)
          × (length dek ≡ 32)
          × (length r'.content + 44 ≡ length r.content) =
        (
          omega (arith, length-take 12 (drop 32 r.content), length-drop 32 r.content),
          omega (arith, length-take 32 r.content),
          omega (arith, length-drop 12 (drop 32 r.content), length-drop 32 r.content),
        ) in
      let (hn, hd, left) = sizes in
      let hr' : IsBytes r'.content =
        All-drop IsByte 12 (drop 32 r.content) (All-drop IsByte 32 r.content hr) in
      let generated = static_generate_lem r found hk (omega arith) in
      let (token, sealed, opened) =
        envelope_open-envelope_seal c static_sealer plain aad dek wrapped r r'
          (static_kms-Serves c s key_id) hp hr generated (omega arith) in
      (
        token,
        record r' { content = drop 12 r'.content },
        sealed,
        omega (arith, length-drop 12 r'.content),
        All-drop IsByte 12 r'.content hr',
        envelope_seal_long c static_sealer plain aad dek wrapped token r r' _ generated hd hp hr'
            (omega arith) (omega (arith, length-token_of c version_aead_v1 kek nonce dek [] hn))
            sealed,
        opened,
      )
