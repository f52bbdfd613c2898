-- ===== src/Routes.antt =====
-- beachedmesh/routes.py: the routes that announces teach, a hot table over a cold store.
pub mod Entry
pub mod Cold
pub mod Table
mod Tests
