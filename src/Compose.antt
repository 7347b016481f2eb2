-- ===== src/Compose.antt =====
-- The Compose file of src/runtime/compose_file.rs: paths, variables, volumes, services, and the
-- stages of a Dockerfile.
pub mod Paths
pub mod Variables
pub mod Volumes
pub mod Services
pub mod Stages
pub mod Loading
mod Tests
