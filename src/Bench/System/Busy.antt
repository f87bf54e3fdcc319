-- ===== src/Bench/System/Busy.antt =====
-- userland-driver/tools/bench-nvme.c: the buffers of all threads, at any moment of a run with all threads
-- at the same time.
use nvpkt.Base.{ℕ, ◌≡◌, some}
use nvpkt.Bench.Thread.{Thread, Log}
use nvpkt.Bench.Thread.Buffers.{Buffers, buffers, idle}
use nvpkt.Bench.System.{Pc, head, exited, System}

-- Nothing was done to a buffer that may not be done to it.
abbrev pub InOrder : Log → Type 0
InOrder l = (s : Buffers) × (buffers l ≡ some s)

-- Between two rounds, and behind the last one, the device has none of the buffers.
abbrev pub Held : (batch : ℕ) → Pc → Log → Type 0
Held batch head l = buffers l ≡ some (idle batch)
Held batch exited l = buffers l ≡ some (idle batch)
Held batch _ l = InOrder l
