-- ===== src/Lib.antt =====
-- The SPARC Linux system-call layer of the Sparcy simulator, proj/sparc-linux, and the driver of the
-- simulation, as definitions that run, with theorems about them. The driver (proj/main.cpp and
-- proj/system.cpp) loads a big-endian SPARC program into a block of host memory at `guest_base`, runs the
-- processor (proj/*.sv) and serves its bus. At a trap the processor hands the number and the arguments to
-- `syscall_cse502`, which passes them to `do_syscall` of proj/sparc-linux/syscall.c.
--
-- Parts and files:
--   Base      tests on numbers, lists and the C integer types that all modules share.
--   Memory    the host's memory as a byte at each address, and the accessors of bswap.h and
--             cpu-all.h, with the signed and the little-endian ones in Orders. Accessors relates loads to
--             stores, Ranges says what memset writes.
--   Errno     errno_defs.h, the table host_to_target_errno_table, `host_to_target_errno`, and the
--             loop of `sl_init` that inverts the table. Host holds the numbers of a generic Linux host.
--   Guest     the global variables of syscall.c (record Target), and statements as state passing
--             (M): `g2h`, `lock_user`, `get_errno`, `is_error`, and put_user and get_user of
--             target-sparc.h. Calls describes the host, Keeps says which statements assign to no global.
--   Brk Mmap  `do_brk`, `target_mmap` and `target_munmap`.
--   Layout    the shares of guest memory that the heap and the mapped blocks have, and what the
--             operations of Brk and Mmap do to them.
--   Init      `sl_init` and `init_stack`: the first globals, and the program's arguments on its stack.
--   Nr        syscall_nr.h.
--   Convert   the conversions of structures between guest and host: times, sets of descriptors and
--             `do_select`, resource limits, stat and statfs, vectors of buffers, user numbers;
--             Uncalled has the helpers for timers and file names that no compiled case calls.
--             Numbers and the files RoundTrip are about the ways there and back, Iovec/Entries and
--             Totals about what the host is handed.
--   Structs   the structures of syscall_defs.h as the compiler lays them out (Times, Calls, Files, Sockets,
--             Terminals, Signals), with Placement about their fields, Stores and Tables about what is
--             stored in them; Messages, the macros over control messages; Ioctl, the numbers of
--             requests; Constants, tables of the other numbers of syscall_defs.h, termbits.h and
--             socket.h. Convert/Stat/Fields and ReadBack set the declarations beside the stores.
--   Syscall   `do_syscall`: Defs has the `switch` and the labels at the end, each file below a stretch of
--             cases in the source's order. Keeps and Frame follow the globals through all of them,
--             Exit the flag that `sl_exit_called` returns, Reach the states after many calls. Errors is
--             about failures of the host, Unknown about numbers without a case, Dispatch about the way
--             to a case, Entries/Chain about the records of getdents64. Status is about the calls that
--             fill in a structure about a file, from the number to what the guest reads, and Select in the
--             same way about _newselect.
--   Driver    `System` of proj/system.cpp: Bus is `tick` and the callback of the DRAM simulator, Elf
--             `load_elf`, Start the constructor and the steps of the boot in `main` of proj/main.cpp, Main
--             its loop, and Whole all of `main`. Outstanding, Front and Protocol are about the reads under
--             way and the assertions; Line, Burst, LineWrite and Lines about a line that is written and
--             read; Segments, Program, Boot, Arguments and Bss about the program in memory, its arguments
--             and the heap after it; Ends, Reach and Returns about the loop and `main`.
--   Hw2       the driver of the second homework, hw2/system.cpp and hw2/main.cpp: Bus is `ramTick`, Run the
--             ticks and all of `main`, Requests is about the processor, Same and Tick set the bus beside
--             that of Driver, and Ends and Returns are about the loop and `main`.
--   Programs  the guest programs of proj/sparc-prog: the number printing of prints.c, with its proofs in
--             Prints; pi_checksum.c in Spigot; compress.c and deflate.c in Sample, and when
--             the second succeeds in Deflate; malloc.c and stack_dir.c in Small.
--   Tests     runs at fixed inputs.
--
-- An `abi_long` or `int` is a number below 2 ^ 32 (its two's complement), a `long`, `size_t` or
-- pointer one below 2 ^ 64, and each sum is cut where the source's type cuts it. An abi_long that
-- becomes a long is sign-extended (`sext64`).
--
-- The host's kernel and C library are a parameter (Guest/Calls, `Host`): a function of the calls so
-- far, the memory and the call, that gives the result, the new errno if it sets one, the memory, and the
-- fields of a structure that the call fills in. Nothing is assumed of it.
--
-- A function that can only fail with -TARGET_EFAULT, and whose callers all go on to the label
-- `efault`, jumps there itself. `unlock_user` does nothing and is left out, as are messages to stderr.
-- A loop that may not end runs on fuel: the loop over directory entries gets one round more than
-- there are bytes, which is enough unless a record of length 0 stops it from moving. The search of
-- `init_stack` for a NUL has its fuel as an argument; the size of the string is enough.
--
-- The configuration is the one of the sources: a 32-bit big-endian target with TARGET_SPARC, and a
-- little-endian 64-bit Linux host. Cases that it leaves out are not listed.
--
-- The circuit that Verilator generates, the DRAM simulator, libelf and the keyboard are parameters of
-- Driver: `Circuit`, `MemorySystem`, `ElfFile`, and a key for each time. What is assumed of them stands in
-- `IsMemorySystem` (each read ends once, and a transaction is taken where `willAcceptTransaction` said so)
-- and `KeepsProtocol` (what the circuit owes the bus), and `CacheKeeps` for that of hw2. A failed
-- assertion is `none`. The loop of `main` runs on fuel: one round for each 250 picoseconds up to the limit
-- of its condition is enough. So does that of hw2/main.cpp, whose limit is 102400000 picoseconds.
--
-- What the source reads or writes past a table or a set is not modelled: error numbers from 1200 on, and
-- sets of more than 1024 descriptors.
--
-- Not modelled: the processor in SystemVerilog, what the console draws, the DRAM simulator, miniz (the guest
-- programs' calls of it are parameters), hw.c, which has no operation, floating-point accessors,
-- the processor state of QEMU in cpu.h, and requests whose size is that of a structure of the host.
pub mod Base
pub mod Memory
pub mod Errno
pub mod Guest
pub mod Brk
pub mod Mmap
pub mod Layout
pub mod Init
pub mod Nr
pub mod Structs
pub mod Programs
pub mod Convert
pub mod Driver
pub mod Hw2
pub mod Syscall
mod Tests
