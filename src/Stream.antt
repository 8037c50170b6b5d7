-- ===== src/Stream.antt =====
-- stream.go: encryption of a reader into a writer by chunks. The random source, the input and the
-- output are one state that each step passes on; `Seal` and `Open` are the two functions.
pub mod Seal
pub mod Open
pub mod Fields
pub mod Chunk
pub mod Cut
pub mod Turns
pub mod RoundTrip
pub mod Truncation
pub mod Accepts
pub mod Sound
pub mod Nonces
pub mod Steps
pub mod Termination
mod Tests
use crypt.Base.{
  ℕ, ◌+◌, ◌-◌, ◌*◌, ◌%◌, ◌^◌, List, [], ◌∷◌, ◌++◌, Bool, Option, none, some, leb, ltb, length, take,
  drop, replicate, if◌then◌else◌,
}
use crypt.Base.Outcome.{Result, ok, err, panic, write_failure}
use crypt.Wire.{Bytes, put_u32}
use crypt.Entropy.{Reader, Filled, read_full, draw}

-- An `io.Writer`: what it was given, and how many more bytes it takes before it fails (`none`: it
-- never fails).
pub record Writer : Type 0 where
  pub written : Bytes
  pub room : Option ℕ

pub record Ends : Type 0 where
  pub random : Reader
  pub input : Reader
  pub output : Writer

abbrev pub Streaming {ℓ} : Type ℓ → Type ℓ
Streaming A = Ends → Result A × Ends

abbrev pub and_then {ℓ κ} :
    {A : Type ℓ} {B : Type κ} → (A → Streaming B) → Result A × Ends → Result B × Ends
and_then f (ok a, s) = f a s
and_then f (err e, s) = (err e, s)
and_then f (panic, s) = (panic, s)

infixl 5 ◌>>=◌ ◌>>◌
abbrev pub ◌>>=◌ {ℓ κ} : {A : Type ℓ} {B : Type κ} → Streaming A → (A → Streaming B) → Streaming B
◌>>=◌ m f s = and_then f (m s)

abbrev pub ◌>>◌ {ℓ} : {B : Type ℓ} → Streaming (Unit {0}) → Streaming B → Streaming B
◌>>◌ m k s = and_then (λ _. k) (m s)

abbrev pub lift {ℓ} : {A : Type ℓ} → Result A → Streaming A
lift m s = (m, s)

-- `io.ReadFull(randReader, buf)`
abbrev pub draw_bytes : ℕ → Streaming Bytes
draw_bytes n s = let (got, random) = draw n s.random in (got, record s { random = random })

-- `io.ReadFull(r, buf)`
abbrev pub read : ℕ → Streaming Filled
read n s = let (got, input) = read_full n s.input in (ok got, record s { input = input })

abbrev pub accept : Bytes → Writer → Option ℕ → Result (Unit {0}) × Writer
accept bytes w none = (ok tt, record w { written = w.written ++ bytes })
accept bytes w (some room) =
    if leb (length bytes) room
    then (ok tt, record w { written = w.written ++ bytes; room = some (room - length bytes) })
    else (err write_failure, record w { written = w.written ++ take room bytes; room = some 0 })

-- `w.Write(bytes)`
abbrev pub write : Bytes → Streaming (Unit {0})
write bytes s =
    let (done, output) = accept bytes s.output s.output.room in (done, record s { output = output })

abbrev pub stream_magic : Bytes
stream_magic = b'C' ∷ b'R' ∷ b'S' ∷ b'V' ∷ []

abbrev pub stream_version : ℕ
stream_version = 0x01

abbrev pub stream_nonce_prefix : ℕ
stream_nonce_prefix = 8

abbrev pub stream_header_size : ℕ
stream_header_size = 4 + 1 + stream_nonce_prefix

abbrev pub default_stream_chunk_size : ℕ
default_stream_chunk_size = 64 * 1024

abbrev pub stream_max_chunk_size : ℕ
stream_max_chunk_size = 2 ^ 30

-- `makeStreamNonce`
unfoldable pub make_stream_nonce : Bytes → ℕ → Bytes
make_stream_nonce prefix counter = take 8 (prefix ++ replicate 8 0) ++ put_u32 counter

-- `streamAAD`
unfoldable pub stream_aad : ℕ → Bool → Bytes
stream_aad counter last = put_u32 counter ++ ((if last then 1 else 0) ∷ [])
