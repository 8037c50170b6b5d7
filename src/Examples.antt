-- ===== src/Examples.antt =====
-- The programs under examples/ that have logic of their own around the calls of the package. Each
-- child module names the programs that it is about.
pub mod Program
pub mod Rings
pub mod Envelopes
pub mod Expiring
pub mod Sealing
pub mod SignedBox
pub mod Files
pub mod ApiKeys
pub mod Tokens
pub mod Tenants
pub mod Webhook
pub mod Audit
pub mod Json
pub mod Sessions
pub mod Links
pub mod Rehash
pub mod Migration
pub mod Rotation
pub mod Accounts
