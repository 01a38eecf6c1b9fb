-- ===== src/System/Boot/Layout.antt =====
-- About where the images of a boot lie in RAM (src/system.rs, src/memory/mod.rs).
use otorisc_v.Base.{
  ℕ, zero, suc, ◌+◌, ◌-◌, ◌*◌, ◌/◌, ◌≤◌, ◌<◌, ◌≡◌, refl, ◌∙◌, arith, Bool, true, false, ltb,
  if◌then◌else◌, add32, sub32, u32, bit_and_high, bit_and_mask, Option, some, List, [], ◌∷◌, length,
  get_or, Result, ok, err, two31, two32, inl, ◌⊎◌,
}
use otorisc_v.Cpu
use otorisc_v.Cpu.{read_reg, write_reg}
use otorisc_v.Memory
use otorisc_v.Memory.{LoadError, dram_base, copy_from_slice, load_binary}
use otorisc_v.Memory.Bytes.{put_byte}
use otorisc_v.System.State.{System}
use otorisc_v.System.Boot.{
  BootError, not_enough_ram, align_down, dtb_reserve, booted, then_boot, initrd_start, dtb_addr,
  load_dtb, setup_linux_boot_with_initrd,
}

align_down-page : (x : ℕ) → x < two32 → align_down x ≡ x / 4096 * 4096
align_down-page x h = omega (arith, bit_and_high 12 x 0xFFFFF, bit_and_mask 20 (x / 4096))

copy_from_slice-outside :
    (f : ℕ → ℕ) (o : ℕ) (l : List ℕ) (j : ℕ)
    → (j < o) ⊎ (o + length l ≤ j)
    → copy_from_slice f o l j ≡ f j
unfolding copy_from_slice
copy_from_slice-outside f o [] j h = refl
copy_from_slice-outside f o (b ∷ l) j h =
    ground (arith, copy_from_slice-outside (put_byte f o b) (o + 1) l j)

copy_from_slice-inside :
    (f : ℕ → ℕ) (o : ℕ) (l : List ℕ) (i : ℕ)
    → i < length l
    → copy_from_slice f o l (o + i) ≡ get_or l i 0
unfolding copy_from_slice
copy_from_slice-inside f o [] i h = absurd (omega arith)
copy_from_slice-inside f o (b ∷ l) zero h =
    ground (arith, copy_from_slice-outside (put_byte f o b) (o + 1) l (o + 0))
copy_from_slice-inside f o (b ∷ l) (suc i) h =
    let e : o + suc i ≡ o + 1 + i = omega arith in
    rw e (copy_from_slice-inside (put_byte f o b) (o + 1) l i (omega arith))

-- A list of bytes stands in memory from an address on.
pub record Holds {D : Type 0} (m : Memory.Memory D) (addr : ℕ) (l : List ℕ) : Type 0 where
  pub in_ram : (dram_base ≤ addr) × (addr - dram_base + length l ≤ m.ram_len)
  pub byte_at : (i : ℕ) → i < length l → m.ram (addr - dram_base + i) ≡ get_or l i 0

module _ {D : Type 0} where
  -- What a load that succeeds leaves.
  record Loaded (m m' : Memory.Memory D) (addr : ℕ) (l : List ℕ) : Type 0 where
    holds : Holds m' addr l
    same_len : m'.ram_len ≡ m.ram_len
    same_base : m'.ram_base ≡ m.ram_base
    outside :
        (j : ℕ) → (j < addr - dram_base) ⊎ (addr - dram_base + length l ≤ j) → m'.ram j ≡ m.ram j

  load_binary-ok :
      (m m' : Memory.Memory D) (l : List ℕ) (addr : ℕ)
      → load_binary m l addr ≡ ok m'
      → (m.ram_base ≤ addr)
        × (addr - m.ram_base + length l ≤ m.ram_len)
        × (m' ≡ record m { ram = copy_from_slice m.ram (addr - m.ram_base) l })
  unfolding load_binary
  load_binary-ok m m' l addr e = (ground arith, ground arith, ground arith)

  load_binary-Loaded :
      (m m' : Memory.Memory D) (l : List ℕ) (addr : ℕ)
      → m.ram_base ≡ dram_base
      → load_binary m l addr ≡ ok m'
      → Loaded m m' addr l
  load_binary-Loaded m m' l addr b e =
      let (lo, hi, same) = load_binary-ok m m' l addr e in
      let o : addr - m.ram_base ≡ addr - dram_base = omega (arith, b) in
      rw same (record {
        holds = record {
          in_ram = (omega arith, omega arith);
          byte_at = λ i lt. rw o (copy_from_slice-inside m.ram (addr - dram_base) l i lt);
        };
        same_len = refl;
        same_base = refl;
        outside = λ j h. rw o (copy_from_slice-outside m.ram (addr - dram_base) l j h);
      })

  -- Bytes stay where they are when a load goes elsewhere.
  Holds-Loaded :
      (m m' : Memory.Memory D) (addr addr' : ℕ) (l l' : List ℕ)
      → Holds m addr l
      → Loaded m m' addr' l'
      → (addr + length l ≤ addr') ⊎ (addr' + length l' ≤ addr)
      → Holds m' addr l
  Holds-Loaded m m' addr addr' l l' h k apart = record {
    in_ram = (h.in_ram.0, omega (arith, h.in_ram.1, k.same_len));
    byte_at = λ i lt.
        k.outside (addr - dram_base + i) (ground (arith, h.in_ram.0, k.holds.in_ram.0))
        ∙ h.byte_at i lt;
  }

ltb-le : (a b : ℕ) → ltb a b ≡ false → b ≤ a
ltb-le a b h = ground arith

-- Where the images lie, below the end of a RAM of a given length.
layout :
    (r k l t : ℕ)
    → r < two31
    → k + 0x100000 < two31
    → l ≤ r
    → t ≤ 0x10000
    → let end_ = add32 dram_base (u32 r) in
      let start = align_down (sub32 (align_down (sub32 end_ 0x10000)) (u32 l)) in
      let tree = align_down (sub32 end_ (u32 t)) in
      ltb start (add32 (add32 dram_base (u32 k)) 0x100000) ≡ false
      → (dram_base + k ≤ start) × (start + l ≤ tree)
layout r k l t hr hk hl ht e =
    let end_ = add32 dram_base (u32 r) in
    let initrd_end = align_down (sub32 end_ 0x10000) in
    let start = align_down (sub32 initrd_end (u32 l)) in
    let a1 = align_down-page (sub32 end_ 0x10000) (omega arith) in
    let a2 = align_down-page (sub32 initrd_end (u32 l)) (omega arith) in
    let a3 = align_down-page (sub32 end_ (u32 t)) (omega arith) in
    (
      omega (arith, ltb-le start (add32 (add32 dram_base (u32 k)) 0x100000) e),
      omega (arith, a1, a2, a3),
    )

module _ {D F : Type 0} where
  -- The device tree for an initial file system.
  abbrev pub tree_for : (ℕ → Option (ℕ × ℕ) → List ℕ) → System D F → List ℕ → List ℕ
  tree_for generate_fdt sys initrd =
      let start = initrd_start sys (length initrd) in
      generate_fdt (u32 (sys.bus.memory.ram_len / 1024 / 1024))
        (some (start, add32 start (u32 (length initrd))))

  -- What a boot leaves: the three images in RAM, and the registers for the boot ROM.
  pub record IsBooted (sys sys' : System D F) (kernel initrd dtb : List ℕ) : Type 0 where
    pub kernel_at : Holds sys'.bus.memory dram_base kernel
    pub initrd_at : Holds sys'.bus.memory (initrd_start sys (length initrd)) initrd
    pub dtb_at : Holds sys'.bus.memory (dtb_addr sys (length dtb)) dtb
    pub at_rom : sys'.cpu.pc ≡ 0x1000
    pub hart : read_reg sys'.cpu 10 ≡ 0
    pub tree : read_reg sys'.cpu 11 ≡ dtb_addr sys (length dtb)

  then_boot-ok :
      (r : Result LoadError (Memory.Memory D))
      (next : Memory.Memory D → Result BootError (System D F)) (sys' : System D F)
      → then_boot r next ≡ ok sys'
      → (m : Memory.Memory D) × (r ≡ ok m) × (next m ≡ ok sys')
  then_boot-ok (ok m) next sys' e = (m, refl, e)
  then_boot-ok (err x) next sys' e = cc

  if-ok :
      (test : Bool) (x : BootError) (r : Result BootError (System D F)) (sys' : System D F)
      → (if test then err x else r) ≡ ok sys'
      → (test ≡ false) × (r ≡ ok sys')
  if-ok true x r sys' e = cc
  if-ok false x r sys' e = (refl, e)

  -- What the last step leaves.
  record TreeLoaded (sys sys' : System D F) (m : Memory.Memory D) (dtb : List ℕ) : Type 0 where
    loaded : Loaded m sys'.bus.memory (dtb_addr sys (length dtb)) dtb
    pc : sys'.cpu.pc ≡ 0x1000
    a0 : read_reg sys'.cpu 10 ≡ 0
    a1 : read_reg sys'.cpu 11 ≡ dtb_addr sys (length dtb)

  load_dtb-TreeLoaded :
      (sys sys' : System D F) (dtb : List ℕ) (m : Memory.Memory D)
      → m.ram_base ≡ dram_base
      → load_dtb sys dtb m ≡ ok sys'
      → TreeLoaded sys sys' m dtb
  unfolding load_dtb Cpu.reset write_reg read_reg
  load_dtb-TreeLoaded sys sys' dtb m b e =
      let addr = dtb_addr sys (length dtb) in
      let next : Memory.Memory D → Result BootError (System D F) = λ m'. ok (booted sys addr m') in
      let (m', e1, e2) = then_boot-ok (load_binary m dtb addr) next sys' e in
      let l = load_binary-Loaded m m' dtb addr b e1 in
      let same : sys' ≡ booted sys addr m' = cc in
      rw same (record { loaded = l; pc = refl; a0 = refl; a1 = refl })

  -- A boot that succeeds, with RAM at its base and below 2 GB, a kernel that leaves 1 MB of the
  -- address space behind RAM's base plus its length, and a device tree of at most 64 KB, leaves the
  -- whole kernel at the base of RAM, the whole initial file system and the whole tree at their
  -- addresses, the hart at the boot ROM, 0 in a0 and the tree's address in a1.
  pub setup_linux_boot_with_initrd-IsBooted :
      (generate_fdt : ℕ → Option (ℕ × ℕ) → List ℕ) (sys sys' : System D F) (kernel initrd : List ℕ)
      → sys.bus.memory.ram_base ≡ dram_base
      → sys.bus.memory.ram_len < two31
      → length kernel + 0x100000 < two31
      → ((mb : ℕ) (place : Option (ℕ × ℕ)) → length (generate_fdt mb place) ≤ dtb_reserve)
      → setup_linux_boot_with_initrd generate_fdt sys kernel (some initrd) ≡ ok sys'
      → IsBooted sys sys' kernel initrd (tree_for generate_fdt sys initrd)
  unfolding setup_linux_boot_with_initrd
  setup_linux_boot_with_initrd-IsBooted generate_fdt sys sys' kernel initrd hb hr hk ht e =
      let m0 = sys.bus.memory in
      let mb = u32 (m0.ram_len / 1024 / 1024) in
      let start = initrd_start sys (length initrd) in
      let dtb = tree_for generate_fdt sys initrd in
      let low = ltb start (add32 (add32 dram_base (u32 (length kernel))) 0x100000) in
      let last : Memory.Memory D → Result BootError (System D F) = λ m'. load_dtb sys dtb m' in
      let next : Memory.Memory D → Result BootError (System D F) =
        λ m. if low then err not_enough_ram else then_boot (load_binary m initrd start) last in
      let (m1, e1, f1) = then_boot-ok (load_binary m0 kernel dram_base) next sys' e in
      let l1 = load_binary-Loaded m0 m1 kernel dram_base hb e1 in
      let (high, f1') =
        if-ok low not_enough_ram (then_boot (load_binary m1 initrd start) last) sys' f1 in
      let (m2, e2, f2) = then_boot-ok (load_binary m1 initrd start) last sys' f1' in
      let b1 : m1.ram_base ≡ dram_base = l1.same_base ∙ hb in
      let l2 = load_binary-Loaded m1 m2 initrd start b1 e2 in
      let t = load_dtb-TreeLoaded sys sys' dtb m2 (l2.same_base ∙ b1) f2 in
      let (p, q) =
        layout m0.ram_len (length kernel) (length initrd) (length dtb) hr hk
          (omega (arith, l2.holds.in_ram.1, l1.same_len))
          (ht mb (some (start, add32 start (u32 (length initrd))))) high in
      record {
        kernel_at =
            Holds-Loaded m2 sys'.bus.memory dram_base (dtb_addr sys (length dtb)) kernel dtb
              (Holds-Loaded m1 m2 dram_base start kernel initrd l1.holds l2 (inl p)) t.loaded
              (inl (omega (arith, p, q)));
        initrd_at =
            Holds-Loaded m2 sys'.bus.memory start (dtb_addr sys (length dtb)) initrd dtb l2.holds
              t.loaded (inl q);
        dtb_at = t.loaded.holds;
        at_rom = t.pc;
        hart = t.a0;
        tree = t.a1;
      }
