-- ===== src/Lifecycle.antt =====
-- backend/internal/lifecycle: the loading of workers, of which the admission of requests and the
-- back-off of failed starts are modelled.
pub mod Pending
pub mod Failures
