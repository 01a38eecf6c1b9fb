-- ===== src/Execute/Reservation.antt =====
-- About load-reserved and store-conditional in sequence (`execute_amo`,
-- src/cpu/rv32/execute.rs).
use otorisc_v.Base.{ℕ, ◌≡◌, refl, ap, arith, add32, bit_and, ◌>>>◌, none, some, Result, ok, err}
use otorisc_v.Bus.{Bus}
use otorisc_v.Mmu.{load, store}
use otorisc_v.Cpu.{Cpu, read_reg, write_reg}
use otorisc_v.Trap.{Trap}
use otorisc_v.Decode.{DecodedInst}
use otorisc_v.Execute.Alu.{Outcome, next_pc}
use otorisc_v.Execute.Access.{translate_data}
use otorisc_v.Execute.Amo.{execute_amo, store_conditional, load_reserved}

abbrev pub IsLr : DecodedInst → Type 0
IsLr d = (d.funct7 >>> 2) ≡ 2

abbrev pub IsSc : DecodedInst → Type 0
IsSc d = (d.funct7 >>> 2) ≡ 3

module _ {S : Type 0} (bus : Bus S) where
  load_reserved-reservation :
      (d : DecodedInst) (vaddr : ℕ) (r : Result _ ℕ × Cpu × S)
      → (load_reserved bus d vaddr r).0 ≡ ok tt
      → (load_reserved bus d vaddr r).1.reservation ≡ some vaddr
  load_reserved-reservation d vaddr (ok paddr, cpu, s) e = refl
  load_reserved-reservation d vaddr (err t, cpu, s) e = ground arith

  store_conditional-reservation :
      (d : DecodedInst) (r : Result _ ℕ × Cpu × S)
      → (store_conditional bus d r).0 ≡ ok tt
      → (store_conditional bus d r).1.reservation ≡ none
  store_conditional-reservation d (ok paddr, cpu, s) e = refl
  store_conditional-reservation d (err t, cpu, s) e = ground arith

  lr-reservation :
      (inst : ℕ) (d : DecodedInst) (cpu : Cpu) (s : S)
      → IsLr d
      → (execute_amo bus inst d cpu s).0 ≡ ok tt
      → (execute_amo bus inst d cpu s).1.reservation ≡ some (read_reg cpu d.rs1)
  unfolding execute_amo
  lr-reservation inst d cpu s l = ground (
    arith,
    load_reserved-reservation d (read_reg cpu d.rs1)
        (translate_data bus cpu s (read_reg cpu d.rs1) load),
  )

  sc-reservation :
      (inst : ℕ) (d : DecodedInst) (cpu : Cpu) (s : S)
      → IsSc d
      → (execute_amo bus inst d cpu s).0 ≡ ok tt
      → (execute_amo bus inst d cpu s).1.reservation ≡ none
  unfolding execute_amo
  sc-reservation inst d cpu s l =
      ground (
        arith,
        store_conditional-reservation d (translate_data bus cpu s (read_reg cpu d.rs1) store),
      )

  -- A store-conditional that has been executed uses up the reservation: any store-conditional to an
  -- aligned address after it writes 1 to its register, and what is behind the bus stays as it was.
  sc-sc :
      (inst inst' : ℕ) (d d' : DecodedInst) (cpu : Cpu) (s : S)
      → IsSc d
      → IsSc d'
      → (execute_amo bus inst d cpu s).0 ≡ ok tt
      → bit_and (read_reg (execute_amo bus inst d cpu s).1 d'.rs1) 3 ≡ 0
      → let (_, cpu1, s1) = execute_amo bus inst d cpu s in
        execute_amo bus inst' d' cpu1 s1
        ≡ (ok tt, next_pc (record (write_reg cpu1 d'.rd 1) { reservation = none }), s1)
  unfolding execute_amo
  sc-sc inst inst' d d' cpu s l l' e a = ground (arith, sc-reservation inst d cpu s)

  lr-sc_branch :
      (inst inst' : ℕ) (d d' : DecodedInst) (cpu : Cpu) (s : S)
      → IsLr d
      → IsSc d'
      → (execute_amo bus inst d cpu s).0 ≡ ok tt
      → read_reg (execute_amo bus inst d cpu s).1 d'.rs1 ≡ read_reg cpu d.rs1
      → let (_, cpu1, s1) = execute_amo bus inst d cpu s in
        execute_amo bus inst' d' cpu1 s1
        ≡ store_conditional bus d' (translate_data bus cpu1 s1 (read_reg cpu d.rs1) store)
  unfolding execute_amo
  lr-sc_branch inst inst' d d' cpu s l l' e a = ground (arith, lr-reservation inst d cpu s)

  -- What a store-conditional leaves that is accepted, by the answer of its translation: the trap
  -- alone, or its register stored at the address, 0 in rd, no reservation and the next instruction.
  abbrev pub Accepted : DecodedInst → ℕ → Outcome S → Result Trap ℕ × Cpu × S → Type 0
  Accepted d value r (err t, c, s) = r ≡ (err t, c, s)
  Accepted d value r (ok paddr, c, s) =
      (r.0 ≡ ok tt)
      × (r.2 ≡ bus.write32 s paddr value)
      × (read_reg r.1 d.rd ≡ 0)
      × (r.1.reservation ≡ none)
      × (r.1.pc ≡ add32 c.pc 4)

  store_conditional-Accepted :
      (d : DecodedInst) (value : ℕ) (r : Result Trap ℕ × Cpu × S)
      → read_reg r.1 d.rs2 ≡ value
      → Accepted d value (store_conditional bus d r) r
  unfolding read_reg write_reg
  store_conditional-Accepted d value (err t, c, s) e = refl
  store_conditional-Accepted d value (ok paddr, c, s) e =
      (refl, ap (bus.write32 s paddr) e, ground arith, refl, ground arith)

  -- A store-conditional executed right after a load-reserved that succeeded, to the same address,
  -- is accepted: unless translating its address for the store raises a trap, which is then all that
  -- happens, it stores its register at the translated address, writes 0 to rd, gives the reservation
  -- up and goes on at the next instruction.
  pub lr-sc :
      (inst inst' : ℕ) (d d' : DecodedInst) (cpu : Cpu) (s : S)
      → IsLr d
      → IsSc d'
      → (execute_amo bus inst d cpu s).0 ≡ ok tt
      → read_reg (execute_amo bus inst d cpu s).1 d'.rs1 ≡ read_reg cpu d.rs1
      → let (_, cpu1, s1) = execute_amo bus inst d cpu s in
        Accepted d'
          (read_reg cpu1 d'.rs2)
          (execute_amo bus inst' d' cpu1 s1)
          (translate_data bus cpu1 s1 (read_reg cpu d.rs1) store)
  unfolding execute_amo translate_data read_reg
  lr-sc inst inst' d d' cpu s l l' e a =
      let (_, cpu1, s1) = execute_amo bus inst d cpu s in
      rw (lr-sc_branch inst inst' d d' cpu s l l' e a) (
        store_conditional-Accepted d' (read_reg cpu1 d'.rs2)
          (translate_data bus cpu1 s1 (read_reg cpu d.rs1) store) refl)
