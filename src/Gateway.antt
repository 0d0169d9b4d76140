-- ===== src/Gateway.antt =====
-- backend/internal/gateway: the requests that run (active.go) and the routes (routes.go).
pub mod Active
pub mod Routes
