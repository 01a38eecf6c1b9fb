-- ===== src/Icache.antt =====
-- The cache of decoded instructions (src/cpu/rv32/icache.rs).
pub mod Transparent
use otorisc_v.Base.{
  ℕ, ◌+◌, ◌*◌, ◌/◌, ◌%◌, ◌^◌, Bool, true, false, ◌&&◌, ◌==◌, bit_and, if◌then◌else◌, ◌>>>◌, u32,
  u64, Option, none, some,
}

pub record CachedInst : Type 0 where
  pub raw : ℕ
  pub opcode : ℕ
  pub rd : ℕ
  pub rs1 : ℕ
  pub rs2 : ℕ
  pub rs3 : ℕ
  pub funct3 : ℕ
  pub funct7 : ℕ
  pub valid : Bool

-- The masks leave at most seven bits, so the casts to u8 lose nothing.
unfoldable pub decode : ℕ → CachedInst
decode raw = record {
  raw = raw;
  opcode = bit_and raw 0x7F;
  rd = bit_and (raw >>> 7) 0x1F;
  rs1 = bit_and (raw >>> 15) 0x1F;
  rs2 = bit_and (raw >>> 20) 0x1F;
  rs3 = bit_and (raw >>> 27) 0x1F;
  funct3 = bit_and (raw >>> 12) 0x7;
  funct7 = bit_and (raw >>> 25) 0x7F;
  valid = true;
}

-- `CachedInst::default()`.
abbrev pub default_inst : CachedInst
default_inst = record {
  raw = 0;
  opcode = 0;
  rd = 0;
  rs1 = 0;
  rs2 = 0;
  rs3 = 0;
  funct3 = 0;
  funct7 = 0;
  valid = false;
}

-- The array of 1024 slots is a function: every index is masked to ten bits.
pub record CachedPage : Type 0 where
  pub instructions : ℕ → CachedInst
  pub generation : ℕ

abbrev pub new_page : ℕ → CachedPage
new_page generation = record { instructions = λ _. default_inst; generation = generation }

-- The map from page numbers to pages is a function into `Option`.
pub record Icache : Type 0 where
  pub pages : ℕ → Option CachedPage
  pub generation : ℕ
  pub hits : ℕ
  pub misses : ℕ

abbrev pub update {ℓ} : {A : Type ℓ} → (ℕ → A) → ℕ → A → ℕ → A
update f k v j = if k == j then v else f j

unfoldable pub new : Icache
new = record { pages = λ _. none; generation = 1; hits = 0; misses = 0 }

abbrev pub page_number : ℕ → ℕ
page_number paddr = paddr >>> 12

abbrev pub slot : ℕ → ℕ
slot paddr = bit_and (paddr >>> 2) 0x3FF

-- The instruction in the slot, if it may be used.
unfoldable pub find : Icache → ℕ → ℕ → Option CachedInst
find c paddr raw_inst = elim (c.pages (page_number paddr)) [
  | none ↦ none
  | some page ↦
      let cached = page.instructions (slot paddr) in
      if (page.generation == c.generation) && (cached.valid && (cached.raw == raw_inst))
      then some cached
      else none
]

-- `entry(..).or_insert_with(..)`, and the reset of a page of an older generation.
unfoldable pub fresh_page : Icache → ℕ → CachedPage
fresh_page c page_num = elim (c.pages page_num) [
  | none ↦ new_page c.generation
  | some page ↦ if page.generation == c.generation then page else new_page c.generation
]

abbrev pub store_inst : Icache → ℕ → CachedInst → Icache
store_inst c paddr inst =
    let page = fresh_page c (page_number paddr) in
    record c {
      pages =
          update c.pages (page_number paddr)
            (some (record page { instructions = update page.instructions (slot paddr) inst }));
    }

unfoldable pub get_or_decode : Icache → ℕ → ℕ → CachedInst × Icache
get_or_decode c paddr raw_inst = elim (find c paddr raw_inst) [
  | some cached ↦ (cached, record c { hits = u64 (c.hits + 1) })
  | none ↦ (
    decode raw_inst,
    store_inst (record c { misses = u64 (c.misses + 1) }) paddr (decode raw_inst),
  )
]

unfoldable pub invalidate_addr : Icache → ℕ → Icache
invalidate_addr c paddr = elim (c.pages (page_number paddr)) [
  | none ↦ c
  | some page ↦
      if page.generation == c.generation
      then record c {
        pages = update c.pages (page_number paddr) (
            some (record page {
              instructions =
                  update page.instructions (slot paddr)
                    (record (page.instructions (slot paddr)) { valid = false });
            }));
      }
      else c
]

unfoldable pub invalidate_all : Icache → Icache
invalidate_all c = record c { generation = u32 (c.generation + 1) }

unfoldable pub reset : Icache → Icache
reset c = record { pages = λ _. none; generation = 1; hits = 0; misses = 0 }
