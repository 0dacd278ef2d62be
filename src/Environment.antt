-- ===== src/Environment.antt =====
-- The virtual environment and the variables of a project (src/environment.rs and src/config.rs). The file
-- system and the TOML parser are parameters.
pub mod Venv
pub mod Pyproject
mod Sites
mod Variables
mod Tests
