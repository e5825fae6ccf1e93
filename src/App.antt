-- ===== src/App.antt =====
-- internal/app: the start of the program, its accept loop, and the health-check cycle.
pub mod Startup
pub mod Accept
pub mod Boot
pub mod Shutdown
