-- ===== src/Config.antt =====
-- config.go: the defaults of a server's configuration, and what is read from the environment.
pub mod Setter
pub mod Defaults
pub mod EnvFile
pub mod RoundTrip
pub mod Env
pub mod Settings
pub mod Daemon
pub mod Checked
