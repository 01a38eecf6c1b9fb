-- ===== src/Examples/Machine.antt =====
-- The system at concrete inputs (src/system.rs, src/memory/mod.rs, src/devices/virtio.rs).
use otorisc_v.Base.{
  ℕ, ◌+◌, ◌*◌, ◌≤◌, ◌<◌, ◌≡◌, refl, arith, true, false, ◌==◌, inl, bit, if◌then◌else◌, two32,
  Option, none, some, List, [], ◌∷◌, err, ok, ◌⊎◌,
}
use otorisc_v.Cpu
use otorisc_v.Cpu.{read_reg}
use otorisc_v.Execute.{FpUnit}
use otorisc_v.Memory.{Memory, Device, copy_from_slice, load_binary}
use otorisc_v.Memory.Bytes
use otorisc_v.Memory.Rom.{init_boot_rom}
use otorisc_v.Memory.Bounds.{IsKept}
use otorisc_v.Devices.Clint
use otorisc_v.Devices.Uart
use otorisc_v.Devices.Plic
use otorisc_v.Devices.Virtio
use otorisc_v.Devices.Virtio.Lines as VirtioLines
use otorisc_v.Devices.Virtio.Lines.{virtio_run-IsValid}
use otorisc_v.Devices.Virtio9p.{Virtio9p, P9}
use otorisc_v.Devices.Virtio9p.Queues.{Messages, handler}
use otorisc_v.Execute.Float.Access.{fp_unit}
use otorisc_v.Examples.Floats.{float_unit}
use otorisc_v.Devices.Virtio9p.Queues.{write_bytes}
use otorisc_v.Devices.Virtio9p.Response.{stored, write_bytes-stored}
use otorisc_v.Jit
use otorisc_v.Jit.Straight.{IsStraight, compile_block-IsStraight}
use otorisc_v.Examples.Memory.{Ram, ram}
use otorisc_v.System.Bus.{SystemBus, system_bus}
use otorisc_v.System.State.{System}
use otorisc_v.System.Ram.{
  Access, load, store, byte, half, word, double, run_bus, run_bytes, view, write, run_bus-run_bytes,
}
use otorisc_v.System.Bounds.{write-IsKept}
use otorisc_v.System.Interrupts.{update_interrupts}
use otorisc_v.System.Interrupts.Lines.{wired, update_interrupts-wired}
use otorisc_v.System.Sbi.{handle_sbi_call}
use otorisc_v.System.Sbi.Frame.{Returns, handle_sbi_call-Returns}
use otorisc_v.System.Sbi.Timer.{IsTimed, handle_sbi_call-timer}
use otorisc_v.System.Boot.{setup_linux_boot_with_initrd, booted}
use otorisc_v.System.Boot.Layout.{IsBooted, tree_for, setup_linux_boot_with_initrd-IsBooted}
use otorisc_v.System
use otorisc_v.System.{invalid_ram_size}
use otorisc_v.System.Fresh.{IsReady, new-IsReady}
use otorisc_v.System.Run.{run}

-- A device without registers, a file system that answers nothing, no floating-point unit.
abbrev Nothing : Type 0
Nothing = Unit {0}

abbrev no_device : Device Nothing
no_device = record {
  read8 = λ d o. 0;
  write8 = λ d o v. d;
  read16 = λ d o. 0;
  write16 = λ d o v. d;
  read32 = λ d o. 0;
  write32 = λ d o v. d;
  reset = λ d. d;
}

-- A file system that answers every request with its own bytes.
abbrev echo : Messages Nothing
echo = record { process_message = λ f input. (some input, f); suspend = λ f request. f }

abbrev p9 : P9 Nothing Nothing
p9 = handler no_device echo 16 16 (λ f. f)

abbrev Board : Type 0
Board = SystemBus Nothing Nothing

abbrev fp : FpUnit Board
fp = fp_unit (system_bus no_device) float_unit

-- 1 MB of RAM with the boot ROM, and devices after their construction.
abbrev ram_1mb : Memory Nothing
ram_1mb = record {
  ram = λ _. 0;
  ram_len = 0x100000;
  ram_base = 0x80000000;
  rom = λ _. 0;
  mappings = [];
  devices = [];
}

abbrev board : Board
board = record {
  memory = init_boot_rom ram_1mb;
  uart = Uart.new 10;
  clint = Clint.new;
  plic = Plic.new;
  virtio9p = record { virtio = Virtio.new 9 1 []; fs = tt };
}

-- A supervisor's call to set the timer to 2 ^ 32 + 500.
abbrev call_regs : ℕ → ℕ
call_regs r = if r == 10 then 500 else if r == 11 then 1 else 0

abbrev machine : System Nothing Nothing
machine = record {
  cpu = record (Cpu.new) { regs = call_regs };
  bus = board;
  block_cache = Jit.new;
  use_jit_v2 = false;
}

abbrev accesses : List Access
accesses =
    store word 0x80000010 0x12345678
    ∷ store half 0x80000011 0xABCD
    ∷ load word 0x80000010
    ∷ load double 0x8000000E
    ∷ load byte 0x800FFFFF
    ∷ []

run_bus-run_bytes_example : run_bus no_device board accesses ≡ run_bytes (view board) accesses
unfolding init_boot_rom
run_bus-run_bytes_example = run_bus-run_bytes no_device board accesses (omega arith)

run_bytes_there : run_bytes (λ _. 0) accesses ≡ 0x12ABCD78 ∷ 0x12ABCD780000 ∷ 0 ∷ []
unfolding run_bytes Bytes.from_le_bytes Bytes.byte
run_bytes_there = refl

-- A word across the end of RAM.
write-IsKept_example :
    IsKept board.memory (write no_device word board 0x800FFFFE 0xFFFFFFFF).memory 0x100000
unfolding init_boot_rom
write-IsKept_example =
    write-IsKept no_device word board 0x800FFFFE 0xFFFFFFFF 0x100000
      (record { at_base = refl; fits = omega arith }) (omega arith) (omega arith)

update_interrupts-wired_example : bit (update_interrupts machine).cpu.csr.mip 7 ≡ wired machine 7
update_interrupts-wired_example = update_interrupts-wired machine 7 (omega arith)

handle_sbi_call-Returns_example : Returns machine (handle_sbi_call machine)
unfolding read_reg
handle_sbi_call-Returns_example = handle_sbi_call-Returns machine refl

handle_sbi_call-timer_example :
    IsTimed machine
      (handle_sbi_call machine)
      (read_reg machine.cpu 11 * two32 + read_reg machine.cpu 10)
unfolding read_reg Clint.new
handle_sbi_call-timer_example = handle_sbi_call-timer machine (inl refl) (omega arith) (omega arith)

virtio_run-IsValid_example : VirtioLines.IsValid (
    VirtioLines.run
      (Virtio.new 9 1 [])
      (VirtioLines.raised true ∷ VirtioLines.raised false ∷ VirtioLines.wrote32 0x64 1 ∷ []))
virtio_run-IsValid_example =
    virtio_run-IsValid 9 1 []
      (VirtioLines.raised true ∷ VirtioLines.raised false ∷ VirtioLines.wrote32 0x64 1 ∷ [])

-- 4 MB of RAM, a kernel, an initial file system and a tree of a few bytes each.
abbrev bootable : System Nothing Nothing
bootable = record machine { bus = record board { memory = record ram_1mb { ram_len = 0x400000 } } }

abbrev kernel : List ℕ
kernel = 0x13 ∷ 0 ∷ 0 ∷ []

abbrev initrd : List ℕ
initrd = 0x1F ∷ 0x8B ∷ []

abbrev fdt : ℕ → Option (ℕ × ℕ) → List ℕ
fdt mb place = 0xD0 ∷ 0x0D ∷ []

abbrev loaded : System Nothing Nothing
loaded = booted bootable 0x803FF000 (record ram_1mb {
  ram_len = 0x400000;
  ram =
      copy_from_slice (copy_from_slice (copy_from_slice (λ _. 0) 0 kernel) 0x3EF000 initrd) 0x3FF000
        (fdt 0 none);
})

setup_linux_boot_with_initrd-IsBooted_example :
    IsBooted bootable loaded kernel initrd (tree_for fdt bootable initrd)
unfolding setup_linux_boot_with_initrd load_binary
setup_linux_boot_with_initrd-IsBooted_example =
    setup_linux_boot_with_initrd-IsBooted fdt bootable loaded kernel initrd refl (omega arith)
      (omega arith) (λ mb place. omega arith) refl

-- An addition, a store and a jump, behind a bus to words.
abbrev program : Ram
program a = if a == 0x1000 then 0x00A50533 else if a == 0x1004 then 0x00A52023 else 0x0000006F

compile_block-IsStraight_example :
    IsStraight ram program program
      (λ a. refl)
      64
      0x1000
      (Jit.compile_block ram Jit.new program 0x1000).0.instructions
compile_block-IsStraight_example =
    compile_block-IsStraight ram program program (λ a. refl) Jit.new 0x1000 (omega arith)

-- Two bytes of a response, and the first byte behind them.
write_bytes-stored_example :
    (write_bytes no_device ram_1mb 0x80001000 (0x41 ∷ 0x42 ∷ [])).ram 0x1002
    ≡ stored ram_1mb.ram 0x1000 (0x41 ∷ 0x42 ∷ []) 0x1002
write_bytes-stored_example =
    write_bytes-stored no_device ram_1mb 0x80001000 0x41 (0x42 ∷ []) 0x1002
      (record { base = refl; below = omega arith }) (omega arith) (omega arith) (omega arith)

abbrev size : ℕ
size = 64

abbrev virtio9p : Virtio9p Nothing
virtio9p = record { virtio = Virtio.new 9 1 []; fs = tt }

new-IsReady_example :
    ((System.new {D = Nothing} size virtio9p ≡ err (invalid_ram_size size))
      × ((size ≡ 0) ⊎ (2048 < size)))
    ⊎ ((sys : System Nothing Nothing) × (System.new size virtio9p ≡ ok sys)
        × (1 ≤ size)
        × (size ≤ 2048)
        × IsReady sys)
new-IsReady_example = new-IsReady size virtio9p
