-- ===== src/Policy.antt =====
-- src/policy.rs: the declarative policy and the engine that enforces it. Instants are nanoseconds.
-- `to_lowercase` is the Unicode mapping of the standard library, a parameter here.
pub mod Engine
pub mod Checks
pub mod Shell
pub mod Window
pub mod Glob
pub mod Paths
pub mod Files
mod Tests
mod FilesTests
