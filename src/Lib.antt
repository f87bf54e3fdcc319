-- ===== src/Lib.antt =====
-- A model of nvpkt, which sends packets that are stored on NVMe devices, and its proofs.
--
-- The repository has a kernel module, native-driver/nvpkt.c, and tools in userland-driver/tools and
-- native-driver/tools. A process asks the module by ioctl to read a packet from the device into a
-- fresh scatterlist and to queue it on a network device (NVPKT_IOCTL_TXPKT and _TXPKT_COUNT), or to
-- run one NVMe command on its own memory (NVPKT_IOCTL_SUBMIT_IO). The userland tools do the same
-- over two libraries, libunvme and netmap.
--
-- Files:
--   Base      numbers, C integers, lists, tests.
--   Args      the part of the C library that reads arguments: getopt (over the letters of an option
--             string), strtol and atoi, with the numbers and command lines that they read back.
--   Uapi      native-driver/nvpkt.h: the ioctl's structures and numbers.
--   Driver    native-driver/nvpkt.c. Kernel has the kernel's structures and the kernel itself as a
--             record of functions, whose answers depend on the calls made so far; Docs says what is
--             documented of them. Exec has the monad: a log of calls, and a result or the following
--             of a NULL pointer. Skb is skb_from_sgvec, Bio is blk_rq_map_from_sgl, Xmit is
--             nvpkt_ioctl_txpkt_one with txpkt and txpkt_count, Submit is nvpkt_ioctl_submit_io and
--             nvpkt_ioctl, Files is nvpkt_fops, Module is nvpkt_init_module and nvpkt_exit_module.
--             Life puts the module's whole life together, from insmod to rmmod, as a step relation.
--             Together has several processes that use the loaded module at the same time: a history of
--             all their calls, in which each call is answered from all that went before it.
--             Books is the specification: an automaton that reads the log and keeps account of
--             requests, user pages, scatterlists and sk_buffs. Places has where the device writes
--             a packet and where the network device reads it.
--   Packet    build_pkt of load-and-xmit.c, xmit-from-pram.c and store-pkt.c, and the same code in
--             native-driver/tools/store-pkt.c. Frame has a receiver, Checksum its checksum test.
--   Hexdump   hexdump of the tools. Decode has the inverse.
--   Bench     userland-driver/tools/bench-nvme.c: Args is the option loop of main with print_p, Main
--             the threads that it starts, Walk is next_lba, Elapsed is get_usec_elapsed, Thread is
--             bench_start, Interval is print_interval_result and report_interval. System has main,
--             the threads and the reporter at the same time, as a step relation over caught_signal
--             and the counters that they share; Rounds and Inv have what holds at any moment, Refine
--             leads back to Main, Left and Ends count the steps that are left, and Done, Sums, Told
--             and Printed follow the reporter. Busy follows the buffers that the device has.
--   Netmap    what the tools use of netmap, as parameters with their documented behaviour; Space has
--             the arithmetic of rings.
--   Load      main of userland-driver/tools/load-and-xmit.c; Args has its option loop and the whole
--             program (load_and_xmit), Wire the memory that the blocks are read into and what each
--             NIOCTXSYNC hands to the kernel.
--   Client    main of native-driver/tools/xmit-pkt.c and store-pkt.c, on top of Driver.
--   Unvme     main of store-pkt.c, read-pkt.c and dump-nvme.c in userland-driver/tools; Args has the
--             option loop of dump-nvme.c.
--   Pram      xmit-from-pram.c (Send, with its main in Send/Main), recv-to-pram.c (Slots, Recv, with
--             its main in Recv/Main), and phy_addr of both (Phys). Calls keeps account of the port,
--             Send/Handed follows what each NIOCTXSYNC hands to the kernel.
--   Usage     the usage texts of the tools, against the option strings of getopt.
--
-- Numbers: unsigned types are natural numbers with the wrap-around written out (u8, u16, u32, u64),
-- signed ones are integers. Where a signed computation of the source stays in its type on every run
-- that C defines, it is done on natural numbers, and the definition says so.
--
-- Fuel: send_loop (Pram.Send) and drain (Pram.Recv) run on fuel. `count + batch` rounds are enough
-- for the first as long as a batch has at least one packet and this sum is at most 2^31, so that
-- its counter of type int does not overflow; and the number of slots of a ring for the second. The
-- endless loop of recv-to-pram.c (serve in Pram.Recv.Main) is looked at for any number of passes.
-- In Bench/Main a thread of the benchmark makes a given number of rounds before it sees the signal;
-- in Bench/System it makes as many as it is scheduled for. All other loops are structural, in their
-- rounds left or over a list.
--
-- Threads: in Bench/System a step tests caught_signal, sets it, or reads or writes the two counters of
-- one thread, as if these were atomic, which the code leaves open.
--
-- Parameters: the kernel's functions, libunvme, netmap, /proc/self/pagemap, rand, and the value of
-- sizeof(struct skb_shared_info). What is assumed of them stands in Driver/Docs.antt, in IsNetmap
-- (Netmap.antt), in IsKernel (Pram/Recv/Main/Loop.antt), and in the hypotheses of each theorem.
-- Driver/Sample.antt has a concrete kernel on which the tests run.
--
-- Not modelled: printing (but for usage texts, print_p, the text of hexdump where a program prints
-- memory, and which packet recv-to-pram.c prints), the contents of the device memory that
-- recv-to-pram.c clears and the network fills, usleep and srand, the pinning of threads, the clock
-- readings of the benchmark and the floating point of its reports, a file that is opened before the
-- module's loading has returned, native-driver/nvme.h (a header of the Linux kernel), and the
-- scripts.
mod Base
pub mod Uapi
pub mod Args
pub mod Driver
pub mod Packet
pub mod Hexdump
pub mod Bench
pub mod Netmap
pub mod Pram
pub mod Load
pub mod Client
pub mod Unvme
pub mod Usage
