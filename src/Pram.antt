-- ===== src/Pram.antt =====
-- userland-driver/tools/xmit-from-pram.c and recv-to-pram.c: packets in the memory of a device, which
-- netmap sends from and receives into.
pub mod Send
pub mod Recv
pub mod Slots
pub mod Phys
pub mod Calls
mod Tests
