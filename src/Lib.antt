-- ===== src/Lib.antt =====
-- OtoriscV: the 32-bit machine of the emulator, with its memory, devices and main loop, and the
-- 64-bit hart.
--
-- The program emulates a RISC-V machine. A hart fetches a word through its address translation
-- and its cache of decoded instructions, executes it against a bus, and takes the trap that the
-- instruction or a pending interrupt raises; the 64-bit hart also expands 16-bit instructions to
-- full ones. Behind the bus lie memory and devices, whose outputs
-- set the interrupt pending bits that the hart reads. The system compiles the instructions from an
-- address on to a block of decoded instructions, runs blocks in a loop that counts cycles, and
-- answers the calls of a supervisor itself.
--
-- Files and the code they model:
--   Privilege      src/cpu/mod.rs, the privilege levels
--   Csr            src/cpu/rv32/csr.rs: `Csr` is the struct; `read`, `write`, `reset`; the masks are
--                  in Csr/Mstatus and Csr/Mip and the addresses in Csr/Names
--   Bus            src/memory/mod.rs, the trait `Bus`
--   Memory         src/memory/mod.rs, `Memory`: RAM and dispatch to mapped devices; Memory/Rom has the
--                  boot ROM and Memory/Bytes numbers as bytes
--   Mmu            src/cpu/rv32/mmu.rs: `translate`, `translate_slow`, the translation buffer
--   Icache         src/cpu/rv32/icache.rs: `get_or_decode` and the invalidations
--   Fpu            src/cpu/fpu.rs, the registers, flags, rounding mode and fcsr; Fpu/Patterns has
--                  sign injection, the classes and the tests of a NaN
--   Cpu            src/cpu/rv32/mod.rs, the state of the hart and its registers
--   Decode         src/cpu/rv32/decode.rs: fields, immediates and opcodes
--   Trap           src/cpu/trap.rs: causes, pending interrupts, `handle_trap`, `mret`, `sret`
--   Execute        src/cpu/rv32/execute.rs and `step` of src/cpu/rv32/mod.rs: Execute/Alu has the
--                  integer computation, Execute/Access loads and stores, Execute/Amo the atomics,
--                  Execute/System the SYSTEM instructions, and Execute/Float the floating-point
--                  ones of src/cpu/rv32/execute_fp.rs
--   Rv64           src/cpu/rv64, the 64-bit hart: Rv64/Csr is csr.rs, Rv64/Mmu mmu.rs with its three
--                  modes, Rv64/Trap trap.rs, Rv64/Decode and Rv64/Op decode.rs, Rv64/Compressed
--                  the expansion of execute_c.rs, Rv64/Cpu the struct `Cpu64`, Rv64/Execute
--                  execute.rs, `execute_compressed` and `step`, and Rv64/Execute/Float
--                  execute_fp.rs
--   Jit            src/cpu/rv32/jit/v1/mod.rs: `BlockCache`, `compile_block`, `execute_block`
--   Devices/Clint, Devices/Uart, Devices/Plic
--                  src/devices/clint.rs, uart.rs and plic.rs
--   Devices/Virtio src/devices/virtio.rs: `VirtioMmio`; Devices/Virtio/Queue has `Virtqueue`
--   Devices/Virtio9p
--                  src/devices/virtio_9p/mod.rs, the registers and the reset of `Virtio9p`;
--                  Devices/Virtio9p/Queues has `process_queues`
--   System         src/system.rs: System/Bus is `SystemBus`, System/State the struct `System`,
--                  System/Interrupts `update_interrupts`, System/Sbi `handle_sbi_call`, System/Boot
--                  `setup_linux_boot_with_initrd`, System/Run the steps and `run`
--   Base           helpers: tests, lists, machine words, bits, results
--   Examples       the theorems at concrete inputs
--
-- How it is written. A struct is a record and a method that changes it returns the changed record;
-- what a method returns comes first in a pair. A `u32` is a natural number with its wrap-around
-- written out, as is a `u64`, and a bit of it is `bit x k`. An array is a function of its index, and so is the hash
-- map of the instruction cache; every index is within the bounds that the source's masks or tests
-- give. Whatever is behind the bus is a type `S`, and a read may change it. A trap is the error of
-- a result.
--
-- Bounds. The main loop, `run`, takes as many turns as its limit of cycles: each turn that it takes
-- moves the counter on, by one at least, so they suffice as long as the u32 counter does not wrap
-- around, for which the limit may be at most 2^32 - 64, and the calls of the 9P handling return. The scan for a block counts down the
-- instructions that still fit, the 9P queues take fuel for the requests of a queue and the
-- descriptors of a chain, which the source follows without a bound, and the scan over the 127 interrupts of the PLIC those that are left.
-- Counters and addresses wrap where a debug build would stop with an overflow. An index past the
-- end of RAM or ROM, at which the source panics, reads what the array's function holds there; the
-- tests of the source keep accesses within RAM. The handling of a
-- queue of size 0, by which the source divides, gives no result.
--
-- Parameters. `FloatUnit` stands for the arithmetic, the comparisons and the conversions of
-- src/cpu/fpu.rs, which compute with the floats of the host. Over it `fp_unit` of
-- Execute/Float/Access and of Rv64/Execute/Float/Access fill `FpUnit` and `FpUnit64`, the interfaces
-- through which the harts take their floating-point instructions. `P9` is the interface of the
-- handling of the 9P queues, whose calls need not return; `handler` of Devices/Virtio9p/Queues
-- fills it, with fuel, over `Messages`, which stands for the 9P messages and the file system
-- behind them. `Settings` stands for the environment variables RISCV_DEBUG and RISCV_SATP_MODE that
-- the 64-bit hart reads; `Device` is the trait of a mapped device, of which the repository has no
-- implementation; the function that builds the device tree is an argument of the boot.
--
-- Not modelled: what `FloatUnit`, `Messages`, `Settings` and `Device` stand for; the state of the second JIT compiler, which no
-- path of execution reads, and the generators of native code and WebAssembly; the snapshots of
-- src/system.rs; the 64-bit system (src/system64.rs) with the
-- debug output and the counter of hot blocks of its hart (src/cpu/rv64/debug.rs, jit.rs); the
-- device tree; the bindings and the command line, which are input and output. What the debug
-- variable RISCV_DEBUG prints is left out.
pub mod Base
pub mod Privilege
pub mod Csr
pub mod Bus
pub mod Memory
pub mod Mmu
pub mod Icache
pub mod Fpu
pub mod Cpu
pub mod Decode
pub mod Trap
pub mod Execute
pub mod Rv64
pub mod Jit
pub mod Devices
pub mod System
pub mod Examples
