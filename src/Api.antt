-- ===== src/Api.antt =====
-- app/api: the routes, as far as they join the components.
pub mod Files
mod Tests
