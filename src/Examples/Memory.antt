-- ===== src/Examples/Memory.antt =====
-- Translation and the instruction cache at concrete inputs (src/cpu/rv32/mmu.rs and
-- src/cpu/rv32/icache.rs).
use otorisc_v.Base.{
  ℕ, ◌+◌, ◌%◌, true, ◌==◌, ◌≡◌, refl, arith, bit, if◌then◌else◌, ok, u64, all_below,
  all_below_sound, same, same→eq, not, ◌||◌,
}
use otorisc_v.Privilege.{user}
use otorisc_v.Bus.{Bus}
use otorisc_v.Mmu
use otorisc_v.Mmu.{Mmu, load, store, translate, translate_slow}
use otorisc_v.Mmu.Tlb.{AgreeOn}
use otorisc_v.Mmu.Walk.{sv32, faulting, translate_slow-sv32}
use otorisc_v.Mmu.Reuse.{translate-translate_slow}
use otorisc_v.Icache
use otorisc_v.Icache.{get_or_decode, invalidate_addr, invalidate_all, reset}
use otorisc_v.Icache.Transparent.{IsCoherent, new-IsCoherent, get_or_decode-decode}

-- Memory as a function from addresses to words, which a read of any width leaves unchanged.
abbrev pub Ram : Type 0
Ram = ℕ → ℕ

abbrev pub store_word : Ram → ℕ → ℕ → Ram
store_word s a v j = if a == j then v else s j

abbrev pub ram : Bus Ram
ram = record {
  read8 = λ s a. (s a % 256, s);
  write8 = λ s a v. store_word s a (v % 256);
  read16 = λ s a. (s a % 65536, s);
  write16 = λ s a v. store_word s a (v % 65536);
  read32 = λ s a. (s a, s);
  write32 = store_word;
  read64 = λ s a. (s a, s);
  write64 = store_word;
}

-- A root table at 0x1000 whose first entry points to a table at 0x2000, whose entry 3 maps a user
-- page that can be read and written to 0x7000.
abbrev tables : Ram
tables = store_word (store_word (λ _. 0) 0x1000 0x801) 0x200C 0x1C17

abbrev satp : ℕ
satp = 0x80000001

translate_slow-sv32_example :
    (translate_slow ram Mmu.new tables 0x3123 load user satp 0).0
    ≡ faulting load (sv32 tables load user 0 satp 0x3123)
translate_slow-sv32_example =
    translate_slow-sv32 ram (λ s. s) (λ s a. refl) Mmu.new tables 0x3123 load user satp 0

-- The walk of 0x3123, and what it leaves.
abbrev walked : Mmu
walked = (translate_slow ram Mmu.new tables 0x3123 load user satp 0).1

abbrev tables_after : Ram
tables_after = (translate_slow ram Mmu.new tables 0x3123 load user satp 0).2

walk_succeeds :
    translate_slow ram Mmu.new tables 0x3123 load user satp 0 ≡ (ok 0x7123, walked, tables_after)
unfolding translate_slow Mmu.level0 Mmu.check_permissions
walk_succeeds = refl

same_page_table :
    all_below 32 (λ k. not (bit 0xFFFFF000 k) || same (bit 0x3123 k) (bit 0x3FF0 k)) ≡ true
unfolding all_below bit
same_page_table = refl

same_page : AgreeOn 0xFFFFF000 0x3123 0x3FF0
same_page k hk b = same→eq (bit 0x3123 k) (bit 0x3FF0 k) (
    ground (
      arith,
      b,
      all_below_sound 32 (λ k. not (bit 0xFFFFF000 k) || same (bit 0x3123 k) (bit 0x3FF0 k)) k
          same_page_table hk,
    ))

translate-translate_slow_example :
    (q : ℕ) × (translate ram walked tables_after 0x3FF0 load user satp 0
      ≡ (ok q, record walked { tlb_hits = u64 (walked.tlb_hits + 1) }, tables_after))
    × (bit q 4 ≡ (if bit 0xFFFFF000 4 then bit 0x7123 4 else bit 0x3FF0 4))
translate-translate_slow_example =
    translate-translate_slow ram Mmu.new walked tables tables_after tables_after 0x3123 0x3FF0
      0x7123 load user user satp satp 0 0 4 walk_succeeds (omega arith) (omega arith) same_page refl
      (omega arith) (omega arith)

get_or_decode-decode_example :
    ((get_or_decode Icache.new 0x80000000 0x13).0 ≡ Icache.decode 0x13)
    × IsCoherent (get_or_decode Icache.new 0x80000000 0x13).1
get_or_decode-decode_example = get_or_decode-decode Icache.new 0x80000000 0x13 new-IsCoherent
