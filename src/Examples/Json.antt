-- ===== src/Examples/Json.antt =====
-- encoding/json, as the examples call it on a struct of theirs: the text of a value, and the value
-- of a text. It is a parameter; what the theorems rely on is that the text of the value at hand is
-- read back, which holds for structs of valid UTF-8 strings and numbers.
use crypt.Base.{◌≡◌, Option, some}
use crypt.Wire.{Bytes, IsBytes}

pub record Json (A : Type 0) : Type 0 where
  pub marshal : A → Option Bytes
  pub unmarshal : Bytes → Option A

module _ {A : Type 0} where
  -- The value has a text, which is read back.
  pub record ReadsBack (json : Json A) (a : A) : Type 0 where
    pub text : Bytes
    pub printed : json.marshal a ≡ some text
    pub read_back : json.unmarshal text ≡ some a
    pub text-IsBytes : IsBytes text
