-- ===== src/Config.antt =====
-- internal/config: the servers file and the settings of the program.
pub mod Servers
pub mod Settings
