-- ===== src/Middleware.antt =====
-- The middlewares of internal/middleware: chains, request ids, recovery, and the writers that wrap
-- a `ResponseWriter`.
pub mod Writer
pub mod Cors
pub mod Chain
pub mod Logging
mod Tests
