-- ===== src/Entitlement.antt =====
-- internal/entitlement/issuer.go: the claims of an entitlement, their validation, the payload and
-- the signed token.
pub mod Claims
pub mod Validation
pub mod Payload
pub mod KeyId
