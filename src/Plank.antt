-- ===== src/Plank.antt =====
-- plank/pkg/routing, plank/pkg/middleware, plank/pkg/server: the HTTP router, the middleware of routes, and
-- the bridges from endpoints to services.
pub mod Patterns
pub mod Router
pub mod Mux
pub mod Middleware
pub mod Chains
pub mod Restore
pub mod Bridges
pub mod Endpoints
mod Tests
