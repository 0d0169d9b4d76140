-- ===== src/Security.antt =====
-- backend/internal/security: the protection of logins and the address that a request comes
-- from (security.go), and the destinations that the OIDC client may reach (outbound.go).
pub mod Login
pub mod Outbound
pub mod Network
