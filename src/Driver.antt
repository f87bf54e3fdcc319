-- ===== src/Driver.antt =====
-- native-driver/nvpkt.c.
pub mod Kernel
pub mod Exec
pub mod Skb
pub mod Bio
pub mod Xmit
pub mod Submit
pub mod Files
pub mod Books
pub mod Docs
pub mod Module
pub mod Life
pub mod Together
pub mod Places
pub mod Sample
mod Tests
