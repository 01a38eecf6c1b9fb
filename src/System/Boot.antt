-- ===== src/System/Boot.antt =====
-- The loading of a kernel with its initial file system and device tree
-- (`setup_linux_boot_with_initrd`, src/system.rs).
pub mod Layout
use otorisc_v.Base.{
  ℕ, ◌+◌, ◌-◌, ◌/◌, ◌%◌, Bool, ltb, add32, sub32, u32, bit_and, not32, if◌then◌else◌, Option, none,
  some, List, length, Result, ok, err,
}
use otorisc_v.Cpu
use otorisc_v.Cpu.{write_reg}
use otorisc_v.Memory
use otorisc_v.Memory.{LoadError, dram_base}
use otorisc_v.System.State.{System}

pub data BootError : Type 0 where
  not_loaded : LoadError → BootError
  not_enough_ram : BootError

-- `x & !0xFFF`.
abbrev pub align_down : ℕ → ℕ
align_down x = bit_and x (not32 0xFFF)

abbrev pub dtb_reserve : ℕ
dtb_reserve = 0x10000

module _ {D F : Type 0} where
  -- `self.load_binary(..)?`.
  abbrev pub then_boot :
      Result LoadError (Memory.Memory D)
      → (Memory.Memory D → Result BootError (System D F))
      → Result BootError (System D F)
  then_boot (ok m) next = next m
  then_boot (err e) next = err (not_loaded e)

  abbrev pub ram_end : System D F → ℕ
  ram_end sys = add32 dram_base (u32 sys.bus.memory.ram_len)

  abbrev pub initrd_start : System D F → ℕ → ℕ
  initrd_start sys len = align_down (sub32 (align_down (sub32 (ram_end sys) dtb_reserve)) (u32 len))

  abbrev pub dtb_addr : System D F → ℕ → ℕ
  dtb_addr sys len = align_down (sub32 (ram_end sys) (u32 len))

  -- The registers that the kernel expects: the hart in a0, the address of the device tree in a1.
  abbrev pub booted : System D F → ℕ → Memory.Memory D → System D F
  booted sys addr m = record sys {
    bus = record (sys.bus) { memory = m };
    cpu = write_reg (write_reg (Cpu.reset sys.cpu) 10 0) 11 addr;
  }

  unfoldable pub load_dtb : System D F → List ℕ → Memory.Memory D → Result BootError (System D F)
  load_dtb sys dtb m =
      let addr = dtb_addr sys (length dtb) in
      then_boot (Memory.load_binary m dtb addr) (λ m'. ok (booted sys addr m'))

  -- `generate_fdt` is a parameter, here for a given command line: from the megabytes of RAM and the
  -- place of the initial file system to the bytes of the tree.
  unfoldable pub setup_linux_boot_with_initrd :
      (generate_fdt : ℕ → Option (ℕ × ℕ) → List ℕ)
      → System D F
      → List ℕ
      → Option (List ℕ)
      → Result BootError (System D F)
  unfolding load_dtb
  setup_linux_boot_with_initrd generate_fdt sys kernel initrd =
      let ram_size_mb = u32 (sys.bus.memory.ram_len / 1024 / 1024) in
      then_boot (Memory.load_binary sys.bus.memory kernel dram_base) λ m. elim initrd [
        | none ↦ load_dtb sys (generate_fdt ram_size_mb none) m
        | some content ↦
            let start = initrd_start sys (length content) in
            let kernel_end = add32 dram_base (u32 (length kernel)) in
            if ltb start (add32 kernel_end 0x100000)
            then err not_enough_ram
            else then_boot (Memory.load_binary m content start) λ m'.
              load_dtb sys
                (generate_fdt ram_size_mb (some (start, add32 start (u32 (length content))))) m'
      ]
