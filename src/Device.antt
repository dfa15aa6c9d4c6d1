-- ===== src/Device.antt =====
-- The device memory of a session's forward passes. A device address is a number, 0 for none; the
-- accelerator's allocator is what it returns, and `live` lists the blocks that it has given out.
pub mod Layout
pub mod Blocks
pub mod Owned
