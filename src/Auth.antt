-- ===== src/Auth.antt =====
-- internal/auth: credentials, personal access tokens and signed requests.
pub mod Credentials
pub mod Tokens
pub mod Requests
pub mod Signatures
pub mod Presign
mod Tests
