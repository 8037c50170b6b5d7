-- ===== src/Examples/Files.antt =====
-- examples/encrypted_file: a sealed file, and the program. The file system is a parameter.
pub mod Run
use crypt.Base.{ℕ, ◌≡◌, Option, none, some, [], ◌∷◌, ◌++◌, length}
use crypt.Base.Outcome.{Result, ok, err, panic, or_fail, ◌>>=◌, file_failure}
use crypt.Wire.{Bytes}
use crypt.Wire.Text.{codes}
use crypt.Entropy.{Reader}
use crypt.Cipher.{Aead}
use crypt.Gcm.Sealer.{Sealer, new_sealer, sealer_seal, sealer_open}
use crypt.Examples.Program.{Shown, text, failure, size}

-- `os.ReadFile` and `os.WriteFile`, each of which may fail: what was written is read back. The
-- directory that `os.MkdirTemp` makes is given.
pub record FileSystem : Type 1 where
  pub Disk : Type 0
  pub read_file : Disk → Bytes → Option Bytes
  pub write_file : Disk → Bytes → Bytes → Option Disk
  pub read-write :
      (d d' : Disk) (path content : Bytes)
      → write_file d path content ≡ some d'
      → read_file d' path ≡ some content

module _ (fs : FileSystem) (c : Aead) where
  -- What follows `sealer.Seal` in `writeEncrypted`.
  abbrev pub written : fs.Disk → Bytes → Result Bytes × Reader → Result fs.Disk × Reader
  written d path (ok ct, r) = (or_fail (fs.write_file d path ct) file_failure, r)
  written d path (err e, r) = (err e, r)
  written d path (panic, r) = (panic, r)

  -- `writeEncrypted`
  unfoldable pub write_encrypted :
      Sealer → Bytes → Bytes → Bytes → fs.Disk → Reader → Result fs.Disk × Reader
  write_encrypted sealer path plain aad d r = written d path (sealer_seal c sealer plain aad r)

  -- `readEncrypted`
  unfoldable pub read_encrypted : Sealer → Bytes → Bytes → fs.Disk → Result Bytes
  read_encrypted sealer path aad d = do
    raw ← or_fail (fs.read_file d path) file_failure
    sealer_open c sealer raw aad
