-- ===== src/Bench.antt =====
-- userland-driver/tools/bench-nvme.c: the threads that read or write an NVMe device as fast as it
-- goes.
pub mod Walk
pub mod Elapsed
pub mod Thread
pub mod Args
pub mod Main
pub mod Interval
pub mod System
mod Tests
