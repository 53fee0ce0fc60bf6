-- ===== src/Tests.antt =====
-- Concrete inputs: the theorems applied to them, and runs of the code.
pub mod Disk
pub mod Blocks
pub mod Files
pub mod Memory
pub mod Format
pub mod Handlers
pub mod System
pub mod Wires
pub mod Rpc
pub mod Headers
