-- ===== src/Loader.antt =====
-- The module loader of src/loader.rs: names, the bytecode cache and the registry. The Python
-- interpreter that compiles is a parameter.
mod Registry
mod Paths
mod Compile
mod Cached
mod Batch
mod Tests
pub mod Load
mod Owned
mod LoadTests
