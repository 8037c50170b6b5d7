-- ===== src/Kms/Tests.antt =====
-- The theorems on kms.go with the in-memory service and the sample cipher.
use crypt.Base.{
  ℕ, ◌^◌, ◌≡◌, ◌≢◌, ◌<◌, refl, ap, length-replicate, All-replicate, [], ◌∷◌, ◌++◌, length, drop,
  replicate, arith, some, same,
}
use crypt.Base.Outcome.{ok, err, kms_failure, panic}
use crypt.Wire.{Bytes, IsByte, IsBytes, put_u32}
use crypt.Wire.Base64
use crypt.Entropy.{Reader, random_bytes}
use crypt.Entropy.Laws.{draw-enough}
use crypt.Cipher.Sample.{sample}
use crypt.Format.{version_aead_v1}
use crypt.Format.Sealed.{token_of}
use crypt.Gcm.Sealed.{seal_lem}
use crypt.Assoc.{lookup}
use crypt.Kms.{Serves}
use crypt.Kms.Seal.{
  EnvelopeSealer, StaticKms, lookup_kek, static_generate, static_encrypt, envelope_seal,
  version_envelope_v1,
}
use crypt.Kms.Open.{envelope_open, static_decrypt}
use crypt.Kms.Static.{static_kms, static_kms-Serves, static_decrypt-static_encrypt}
use crypt.Kms.Envelope.{envelope_open-envelope_seal}
use crypt.Kms.Overflow.{envelope_open-ne-panic, envelope_open_overflow}
use crypt.Samples.{key_32, nonce_12, hello, context, source}

abbrev id_k : Bytes
id_k = b'k' ∷ []

abbrev service : StaticKms
service = record { keks = (id_k, key_32) ∷ [] }

abbrev sealer : EnvelopeSealer
sealer = record { kms = static_kms sample service; key_id = id_k }

abbrev data_key : Bytes
data_key = replicate 32 9

-- What the service returns for a data key of nines, and the source that it leaves.
abbrev wrapped_key : Bytes
wrapped_key = token_of sample version_aead_v1 key_32 nonce_12 data_key []

abbrev left : Reader
left = record source { content = replicate 16 9 }

service_generates : static_generate sample service id_k source ≡ (ok (data_key, wrapped_key), left)
unfolding static_generate lookup_kek lookup same random_bytes
service_generates =
    rw
      (
        draw-enough 32 source (omega arith),
        seal_lem sample key_32 data_key [] (record source { content = replicate 28 9 }) refl
            (omega arith),
      )
      refl

static_kms-Serves_example : Serves (static_kms sample service) id_k
static_kms-Serves_example = static_kms-Serves sample service id_k

sealer-Serves : Serves sealer.kms sealer.key_id
sealer-Serves = static_kms-Serves sample service id_k

sealer_generates :
    sealer.kms.generate_data_key sealer.key_id source ≡ (ok (data_key, wrapped_key), left)
unfolding static_kms
sealer_generates = service_generates

envelope_open-envelope_seal_example :
    (token : Bytes) × (envelope_seal sample sealer hello context source
      ≡ (ok token, record left { content = drop 12 left.content }))
    × (envelope_open sample sealer token context ≡ ok hello)
envelope_open-envelope_seal_example =
    envelope_open-envelope_seal sample sealer hello context data_key wrapped_key source left
      sealer-Serves (omega arith) (omega arith) sealer_generates (omega arith)

short_text_sealed : static_encrypt sample service id_k hello source ≡ (
  ok (token_of sample version_aead_v1 key_32 nonce_12 hello []),
  record source { content = replicate 48 9 },
)
unfolding static_encrypt lookup_kek lookup same
short_text_sealed = seal_lem sample key_32 hello [] source refl (omega arith)

static_decrypt-static_encrypt_example :
    static_decrypt sample service id_k (token_of sample version_aead_v1 key_32 nonce_12 hello [])
    ≡ ok hello
static_decrypt-static_encrypt_example =
    static_decrypt-static_encrypt sample service id_k hello
      (token_of sample version_aead_v1 key_32 nonce_12 hello []) source
      (record source { content = replicate 48 9 }) (omega arith) (omega arith) short_text_sealed

-- A service that refuses everything.
abbrev closed : EnvelopeSealer
closed = record {
  kms = record {
    generate_data_key = λ id r. (err kms_failure, r);
    decrypt = λ id wrapped. err kms_failure;
    encrypt = λ id plain r. (err kms_failure, r);
  };
  key_id = id_k;
}

abbrev claims_too_much : Bytes
claims_too_much = version_envelope_v1 ∷ 255 ∷ 255 ∷ 255 ∷ 255 ∷ 1 ∷ []

claims_too_much_raw :
    (raw : Bytes)
    → Base64.decode Base64.url (Base64.encode Base64.url claims_too_much) ≡ some raw
    → length raw < 2 ^ 32
claims_too_much_raw raw e =
    let good =
      Base64.RoundTrip.decode-encode Base64.url Base64.RoundTrip.url-IsAlphabet claims_too_much
        (omega arith) in
    let same_raw : claims_too_much ≡ raw = cc good in
    omega (arith, ap (λ (t : Bytes). length t) same_raw)

envelope_open-ne-panic_example :
    envelope_open sample closed (Base64.encode Base64.url claims_too_much) context ≢ panic
envelope_open-ne-panic_example =
    envelope_open-ne-panic sample closed (Base64.encode Base64.url claims_too_much) context
      (λ wrapped h. cc) claims_too_much_raw

-- A long string of zeros, which is never written out.
zeros : ℕ → Bytes
zeros n = replicate n 0

length-zeros : (n : ℕ) → length (zeros n) ≡ n
unfolding zeros
length-zeros n = length-replicate n 0

zeros-IsBytes : (n : ℕ) → IsBytes (zeros n)
unfolding zeros
zeros-IsBytes n = All-replicate IsByte n 0 (omega arith)

envelope_open_overflow_example :
    envelope_open sample sealer
      (Base64.encode Base64.url
        (version_envelope_v1 ∷ (put_u32 4_294_967_295 ++ zeros 4_294_967_295)))
      context
    ≡ panic
envelope_open_overflow_example =
    envelope_open_overflow sample sealer 4_294_967_295 (zeros 4_294_967_295) context
      (zeros-IsBytes 4_294_967_295) (omega arith) (omega arith)
      (omega (arith, length-zeros 4_294_967_295))
