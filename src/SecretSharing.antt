-- ===== src/SecretSharing.antt =====
-- src/secret_sharing: replicated secret sharing among three helpers.
pub mod Replicated
pub mod Sharing
pub mod Malicious
