-- ===== src/Examples/Rotation/Tests.antt =====
-- Runs of the reader with retired keys.
use crypt.Base.{◌≡◌, refl, [], ◌∷◌}
use crypt.Base.Outcome.{err, no_keys_configured, invalid_key}
use crypt.Cipher.Sample.{sample}
use crypt.Gcm.Open.{open_token}
use crypt.Examples.Rotation.{new_multi_key_reader, try_keys, reader_open}

no_keys : reader_open sample (record { keys = [] }) [] [] ≡ err no_keys_configured
unfolding reader_open try_keys
no_keys = refl

last_error_is_returned :
    reader_open sample (new_multi_key_reader (1 ∷ []) ((2 ∷ []) ∷ [])) [] [] ≡ err invalid_key
unfolding reader_open try_keys open_token
last_error_is_returned = refl
