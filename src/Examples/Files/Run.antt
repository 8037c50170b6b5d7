-- ===== src/Examples/Files/Run.antt =====
-- What is read back from a sealed file.
use crypt.Base.{◌≤◌, ◌≡◌, ◌⊎◌, refl, inl, inr, Option-cases, length, drop}
use crypt.Base.Outcome.{ok, err, file_failure}
use crypt.Wire.{Bytes, IsBytes}
use crypt.Entropy.{Reader}
use crypt.Cipher.{Aead}
use crypt.Gcm.Sealer.{Sealer, new_sealer}
use crypt.Gcm.RoundTrip.{sealer_open-sealer_seal}
use crypt.Examples.Files.{FileSystem, write_encrypted, read_encrypted}

-- With 12 bytes in the random source `writeEncrypted` uses these up, and either the file system
-- refuses the write and the caller gets its error, or `readEncrypted` with the same additional data
-- returns the plaintext from the disk that is left.
pub read_encrypted-write_encrypted :
    (fs : FileSystem) (c : Aead) (key : Bytes) (sealer : Sealer) (path plain aad : Bytes)
    (d : fs.Disk) (r : Reader)
    → new_sealer key ≡ ok sealer
    → length key ≡ 32
    → IsBytes plain
    → IsBytes r.content
    → 12 ≤ length r.content
    → (write_encrypted fs c sealer path plain aad d r
        ≡ (err file_failure, record r { content = drop 12 r.content }))
      ⊎ ((d' : fs.Disk) × (write_encrypted fs c sealer path plain aad d r
            ≡ (ok d', record r { content = drop 12 r.content }))
          × (read_encrypted fs c sealer path aad d' ≡ ok plain))
unfolding write_encrypted read_encrypted
read_encrypted-write_encrypted fs c key sealer path plain aad d r made hk hp hr enough =
    let (ct, sealed, opened) =
      sealer_open-sealer_seal c key sealer plain aad r made hk hp hr enough in
    elim (Option-cases (fs.write_file d path ct)) [
      | inl refused ↦ inl (rw (write_encrypted, sealed, refused) refl)
      | inr (d', stored) ↦ inr (
        d',
        rw (write_encrypted, sealed, stored) refl,
        rw (read_encrypted, fs.read-write d d' path ct stored) opened,
      )
    ]
