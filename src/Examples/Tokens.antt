-- ===== src/Examples/Tokens.antt =====
-- examples/random_token: the program.
use crypt.Base.{
  ◌≤◌, ◌≡◌, refl, [], ◌∷◌, length, take, drop, arith, All-drop, length-drop, length-take,
}
use crypt.Base.Int.{pos}
use crypt.Base.Outcome.{ok, slice, slice_front}
use crypt.Wire.{Bytes, IsByte, IsBytes}
use crypt.Entropy.{Reader, random_bytes, random_token, random_hex}
use crypt.Entropy.Laws.{random_texts, draw-enough}
use crypt.Examples.Program.{Program, text, size, ◌>>=◌, ◌>>◌, lift, drawn, drawn_ignoring, print}

-- `main`
unfoldable pub random_main : Program (Unit {0})
random_main = do
  api_key ← drawn (random_token (pos 32))
  print (text api_key ∷ size (length api_key) ∷ [])
  magic_token ← drawn_ignoring [] (random_token (pos 16))
  print (text magic_token ∷ size (length magic_token) ∷ [])
  csrf ← drawn_ignoring [] (random_token (pos 24))
  print (text csrf ∷ size (length csrf) ∷ [])
  log_id ← drawn_ignoring [] (random_hex (pos 8))
  print (text log_id ∷ size (length log_id) ∷ [])
  key_bytes ← drawn_ignoring [] (random_bytes (pos 32))
  head ← lift (slice 0 8 key_bytes)
  print (size (length key_bytes) ∷ text head ∷ [])

-- With 112 bytes in the random source the program ends without an error and prints tokens of 43, 22
-- and 32 characters, 16 digits, and the size of a key of 32 bytes with its first bytes.
random_main-prints :
    (r : Reader)
    → IsBytes r.content
    → 112 ≤ length r.content
    → (api_key magic_token csrf log_id head : Bytes) × (r' : Reader) × (random_main
          (record { random = r; printed = [] })
        ≡ (
          ok tt,
          record {
            random = r';
            printed =
                text api_key
                ∷ size 43
                ∷ text magic_token
                ∷ size 22
                ∷ text csrf
                ∷ size 32
                ∷ text log_id
                ∷ size 16
                ∷ size 32
                ∷ text head
                ∷ [];
          },
        ))
unfolding random_main random_bytes
random_main-prints r hr enough =
    let r1 : Reader = record r { content = drop 32 r.content } in
    let r2 : Reader = record r { content = drop 16 r1.content } in
    let r3 : Reader = record r { content = drop 24 r2.content } in
    let r4 : Reader = record r { content = drop 8 r3.content } in
    let hr1 = All-drop IsByte 32 r.content hr in
    let hr2 = All-drop IsByte 16 r1.content hr1 in
    let hr3 = All-drop IsByte 24 r2.content hr2 in
    let left1 : 80 ≤ length r1.content = omega (arith, length-drop 32 r.content) in
    let left2 : 64 ≤ length r2.content = omega (arith, length-drop 16 r1.content) in
    let left3 : 40 ≤ length r3.content = omega (arith, length-drop 24 r2.content) in
    let left4 : 32 ≤ length r4.content = omega (arith, length-drop 8 r3.content) in
    let ((api_key, drawn1, size1, _), _) = random_texts (pos 32) r hr refl (omega arith) in
    let ((magic_token, drawn2, size2, _), _) = random_texts (pos 16) r1 hr1 refl (omega arith) in
    let ((csrf, drawn3, size3, _), _) = random_texts (pos 24) r2 hr2 refl (omega arith) in
    let (_, (log_id, drawn4, size4, _)) = random_texts (pos 8) r3 hr3 refl (omega arith) in
    let key_bytes : Bytes = take 32 r4.content in
    let size5 : length key_bytes ≡ 32 = omega (arith, length-take 32 r4.content) in
    (
      api_key,
      magic_token,
      csrf,
      log_id,
      take 8 key_bytes,
      record r { content = drop 32 r4.content },
      rw
          (
            random_main,
            drawn1,
            drawn2,
            drawn3,
            drawn4,
            draw-enough 32 r4 left4,
            slice_front 8 key_bytes (omega arith),
            size1,
            size2,
            size3,
            size4,
            size5,
          )
          refl,
    )
