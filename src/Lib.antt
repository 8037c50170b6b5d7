-- ===== src/Lib.antt =====
-- A model of the Go package crypt (package directory: the root of the repository): authenticated
-- and legacy encryption of byte strings into text tokens, streaming encryption, key rotation,
-- envelope encryption, time-locked tokens, password hashes, signatures and random helpers.
--
-- How the parts interact. Every token is a frame (version byte, nonce, ciphertext and tag) in
-- base64url without padding. `Seal`/`Open` (AES-256-GCM, version 1), `SealChaCha20` /
-- `OpenChaCha20` (version 2) and `KeyRing` (version 3, with the kid in the frame) share the frame;
-- the ring also opens version 1. Time-locked tokens and envelopes are built on `Seal` and `Open`,
-- and `OpenAuto` chooses between `Open` and `DecryptCBC`. The generator of test vectors computes
-- tokens without the package, which has to agree with it, and the programs under examples/ build
-- sessions, signed headers, chained logs and migrations on its functions.
--
-- Files:
--   Base      lists, tests, integers and the results (value, error, run-time panic) of Go calls;
--             Base/Outcome has the errors of errors.go, and slice expressions
--   Wire      bytes, big-endian words, and what the package uses of encoding/base64 and encoding/hex;
--             Wire/Decimal, Wire/Text and Wire/Scan have what it and its examples use of strconv,
--             of strings and of fmt.Sscanf
--   Entropy   random.go: `randReader` is a state, the bytes that it still delivers, which each
--             operation passes on; `RandomBytes`, `RandomToken`, `RandomHex`
--   Cipher    the interface of an AEAD, crypto/cipher.AEAD, with the laws that the code relies on
--   Samples   concrete inputs for the tests
--   Format    format.go, and the frame that aead.go and aead_chacha20.go share
--   Gcm       aead.go: `Seal`, `sealWithNonce`, `Open`, `Sealer`
--   ChaCha    aead_chacha20.go
--   Assoc     association lists, which stand for Go maps
--   KeyRing   keyring.go: the state is the record KeyRing; `Add`, `Remove`, `SetActive`, `Seal`, `Open`
--   TimeLock  timelock.go: `IssueToken`, `VerifyToken`; the clock is an argument
--   Kms       kms.go: `EnvelopeSealer` over the interface `KMS`, and `StaticKMS`
--   Cbc       cbc.go: `EncryptCBC`, `DecryptCBC`, the padding, `Cipher` and the string wrappers
--   Auto      auto.go: `OpenAuto`
--   Spelling  how the tokens of all these may be respelled and are still accepted
--   Stream    stream.go: `SealStream` and `OpenStream`; the random source, the input and the output
--             are one state (Ends) that each read and write passes on
--   Asymmetric  asymmetric.go: `GenerateKeyPair`, `SealAsymmetric`, `OpenAsymmetric`
--   Sign      sign.go: `Sign`, `Verify`, `ConstantTimeEqual`, with HMAC-SHA256 as a parameter
--   Hkdf      hkdf.go: `DeriveKey`, with the HKDF reader as a parameter
--   Password  password.go: `formatPHC`, `parsePHC`, `HashPassword`, `VerifyPassword`
--   Bcrypt    password_bcrypt.go: `HashPasswordBcrypt`, `VerifyPasswordBcrypt`
--   Ed25519   ed25519.go: `GenerateEd25519`, `SignEd25519`, `VerifyEd25519`
--   Vectors   cmd/gen-vectors: the three tables of test vectors and the document made of them
--   Examples  programs under examples/ with logic of their own: Webhook (webhook_with_timestamp),
--             Audit (audit_log_chain), Sessions (session_token), Links (csrf_token, magic_link,
--             encrypted_cookie), Accounts (hash_password), Rehash (bcrypt_migration), Migration
--             (migrate_cbc_to_gcm) and Rotation (key_rotation); and programs as they run from start
--             to end over a random source and what they print (Examples/Program): Rings
--             (keyring_rotation), Envelopes (envelope_encryption), Expiring (time_locked_token),
--             Sealing (chacha20_aead, encrypt_field, seal_with_aad), SignedBox (asymmetric_encrypt),
--             Tenants (tenant_keys), Files (encrypted_file), ApiKeys (api_key_check) and Tokens
--             (random_token)
--
-- Conventions. A byte string is a list of numbers; where a theorem needs them below 256 it says
-- so (IsBytes). A pair (value, error) is a Result, whose third constructor is a run-time panic: a
-- slice out of range panics, as in Go, so that the absence of panics is a theorem. Words keep
-- their wrap-around (`% 2 ^ 32`). An error is what `errors.Is` tells of it; texts of messages are
-- left out. Loops over slices and maps are structural recursion. The two loops of stream.go run on
-- fuel, one more turn than the input has bytes, and panic without any: each turn takes a byte or is
-- the last, so the fuel does not run out, which the theorems on the two functions include. Printing
-- a number in decimal has as many turns as the number, and each divides it by ten. The
-- order in which Go iterates over a map is an argument of the call, and the theorems hold for
-- every such order.
--
-- Parameters. The ciphers are not in the repository: an Aead is a pair of functions where opening
-- accepts exactly what sealing made with the same key, nonce and additional data, and a Mode is
-- CBC over AES as a bijection on texts of one length. Forgery is thereby left out: a byte string
-- that opens is a sealing. X25519 is a Curve, on which both sides of an exchange compute the same
-- secret. HMAC-SHA256 (Hmac), HKDF (Hkdf), Argon2id (Argon2), bcrypt (Bcrypt) and Ed25519 (Scheme)
-- are functions of which only lengths, and that a check accepts what was made, are known.
-- The file system of one example is the parameter FileSystem, which reads back what was written,
-- and encoding/json is the parameter Json, of which a theorem assumes that it reads back what it
-- wrote.
-- The parameters are instantiated by sample functions for the concrete runs. A key service (KMS)
-- is a parameter whose contract is the record Serves.
--
-- Not modelled: an input reader that itself fails by io.ErrUnexpectedEOF, which SealStream takes
-- for the end of the input (the other error of a Reader is neither this one nor io.EOF), mutexes
-- (each call is one step), contexts, aliases of byte slices, timing, the size of allocations, the
-- formats in which programs print, the attributes of cookies, and the programs under examples/
-- around files, a network or goroutines, or that only call single functions of the
-- package.
pub mod Base
pub mod Wire
pub mod Entropy
pub mod Cipher
pub mod Samples
pub mod Format
pub mod Gcm
pub mod ChaCha
pub mod Assoc
pub mod KeyRing
pub mod TimeLock
pub mod Kms
pub mod Cbc
pub mod Auto
pub mod Stream
pub mod Asymmetric
pub mod Sign
pub mod Hkdf
pub mod Password
pub mod Bcrypt
pub mod Ed25519
pub mod Examples
pub mod Spelling
pub mod Vectors
