-- ===== src/Yaml.antt =====
-- The YAML reader of src/utils/yaml.rs: lines, tokens, flow collections, block scalars, and the
-- parser of documents.
pub mod Result
pub mod Scan
pub mod Scalar
pub mod Flow
pub mod Lines
pub mod Literal
pub mod Inline
pub mod Block
pub mod Parser
mod Tests
mod Witnesses
