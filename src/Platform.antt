-- ===== src/Platform.antt =====
-- syte/platform: the store of the Coolify-parity layer (store.py) over an SQLite database.
pub mod Codec
pub mod Table
pub mod Deployments
pub mod EnvVars
pub mod Schema
pub mod Cascade
mod Tests
