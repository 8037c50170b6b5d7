-- ===== src/Examples/ApiKeys.antt =====
-- examples/api_key_check: the handler that asks for a key, and the three requests of the program.
-- Of a request the header X-API-Key matters, of a response the status and the body.
use crypt.Base.{
  ℕ, ◌≡◌, ◌≢◌, refl, List, [], ◌∷◌, ◌++◌, Option, none, some, not, same, same_iff, Bool-cases, inl,
  inr, if◌then◌else◌,
}
use crypt.Wire.{Bytes}
use crypt.Wire.Text.{codes}
use crypt.Sign.{constant_time_equal}
use crypt.Examples.Program.{Shown, text, size}

pub record Response : Type 0 where
  pub status : ℕ
  pub body : Bytes

-- `r.Header.Get("X-API-Key")`: a header that is missing has the empty value.
abbrev key_header : Option Bytes → Bytes
key_header none = []
key_header (some value) = value

-- `http.Error(w, "unauthorized", http.StatusUnauthorized)`
abbrev unauthorized : Response
unauthorized = record { status = 401; body = codes "unauthorized" ++ (b'\n' ∷ []) }

-- `requireAPIKey`
unfoldable pub require_api_key : Bytes → (Option Bytes → Response) → Option Bytes → Response
require_api_key expected next r =
    if not (constant_time_equal (key_header r) expected) then unauthorized else next r

abbrev expected_key : Bytes
expected_key = codes "internal-api-key-from-config"

-- The handler of `main`.
abbrev health : Option Bytes → Response
health r = record { status = 200; body = codes "ok" ++ (b'\n' ∷ []) }

abbrev shown_response : Response → List Shown
shown_response r = size r.status ∷ text r.body ∷ []

-- What `main` prints of the answers: with the key, with another, and without.
unfoldable pub api_key_main : List Shown
api_key_main =
    shown_response
      (require_api_key expected_key health (some (codes "internal-api-key-from-config")))
    ++ (shown_response (require_api_key expected_key health (some (codes "wrong")))
        ++ shown_response (require_api_key expected_key health none))

-- A request with another value of the header, or without it where a key is expected, does not come
-- to the handler.
require_api_key-refuses :
    (expected : Bytes) (next : Option Bytes → Response) (r : Option Bytes)
    → key_header r ≢ expected
    → require_api_key expected next r ≡ unauthorized
unfolding require_api_key constant_time_equal
require_api_key-refuses expected next r wrong = elim (Bool-cases (same (key_header r) expected)) [
  | inl equal ↦ absurd (wrong ((same_iff (key_header r) expected).0 equal))
  | inr other ↦ rw (require_api_key, other) refl
]

api_key_main_lem :
    api_key_main
    ≡ size 200
      ∷ text (codes "ok" ++ (b'\n' ∷ []))
      ∷ size 401
      ∷ text (codes "unauthorized" ++ (b'\n' ∷ []))
      ∷ size 401
      ∷ text (codes "unauthorized" ++ (b'\n' ∷ []))
      ∷ []
unfolding api_key_main require_api_key constant_time_equal same
api_key_main_lem = refl
