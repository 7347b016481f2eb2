-- ===== src/Apple.antt =====
-- The Apple Container runtime of src/runtime/apple.rs: the order in which services start, and the
-- arguments of the commands.
pub mod Order
pub mod Arguments
mod Tests
