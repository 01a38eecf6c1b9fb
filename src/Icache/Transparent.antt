-- ===== src/Icache/Transparent.antt =====
-- About the instructions that the cache hands out (src/cpu/rv32/icache.rs).
use otorisc_v.Base.{ℕ, true, ◌≡◌, refl, arith, some, Option-cases, ◌+◌, u64, inl, inr}
use otorisc_v.Icache.{
  Icache, CachedPage, CachedInst, decode, get_or_decode, find, fresh_page, store_inst,
  invalidate_addr, invalidate_all, new, reset, page_number, slot,
}

-- Every valid slot of every page holds what decoding its raw word gives.
abbrev pub IsCoherent : Icache → Type 0
IsCoherent c =
    (n j : ℕ) (page : CachedPage)
    → c.pages n ≡ some page
    → (page.instructions j).valid ≡ true
    → page.instructions j ≡ decode (page.instructions j).raw

pub new-IsCoherent : IsCoherent new
unfolding new
new-IsCoherent n j page e v = cc

find-decode :
    (c : Icache) (paddr raw : ℕ) (i : CachedInst)
    → IsCoherent c
    → find c paddr raw ≡ some i
    → i ≡ decode raw
unfolding find
find-decode c paddr raw i h e = elim (Option-cases (c.pages (page_number paddr))) [
  | inl p ↦ ground arith
  | inr (page, p) ↦ ground (arith, h (page_number paddr) (slot paddr) page p)
]

-- The slots of a page that is taken from the cache or made anew.
fresh_page_sound :
    (c : Icache) (n j : ℕ)
    → IsCoherent c
    → ((fresh_page c n).instructions j).valid ≡ true
    → (fresh_page c n).instructions j ≡ decode ((fresh_page c n).instructions j).raw
unfolding fresh_page
fresh_page_sound c n j h v = elim (Option-cases (c.pages n)) [
  | inl p ↦ ground arith
  | inr (page, p) ↦ ground (arith, h n j page p)
]

decode-raw : (raw : ℕ) → (decode raw).raw ≡ raw
unfolding decode
decode-raw raw = refl

store_inst-IsCoherent :
    (c : Icache) (paddr raw : ℕ) → IsCoherent c → IsCoherent (store_inst c paddr (decode raw))
store_inst-IsCoherent c paddr raw h n j page e v =
    ground (arith, h n j page, fresh_page_sound c (page_number paddr) j h, decode-raw raw)

-- A fetch through a coherent cache returns what decoding the word that was read gives, whether the
-- cache hits or not, and leaves the cache coherent.
pub get_or_decode-decode :
    (c : Icache) (paddr raw : ℕ)
    → IsCoherent c
    → ((get_or_decode c paddr raw).0 ≡ decode raw) × IsCoherent (get_or_decode c paddr raw).1
unfolding get_or_decode
get_or_decode-decode c paddr raw h = elim (Option-cases (find c paddr raw)) [
  | inl p ↦
      rw (p, get_or_decode)
        (refl, store_inst-IsCoherent (record c { misses = u64 (c.misses + 1) }) paddr raw h)
  | inr (i, p) ↦ rw (p, get_or_decode) (find-decode c paddr raw i h p, h)
]

-- Invalidation of an address, of all, and a reset keep the cache coherent.
pub invalidate-IsCoherent :
    (c : Icache) (paddr : ℕ)
    → IsCoherent c
    → IsCoherent (invalidate_addr c paddr) × IsCoherent (invalidate_all c) × IsCoherent (reset c)
unfolding invalidate_addr invalidate_all reset
invalidate-IsCoherent c paddr h = (
  elim (Option-cases (c.pages (page_number paddr))) [
    | inl p ↦ rw (p, invalidate_addr) h
    | inr (old, p) ↦
        rw (p, invalidate_addr)
          (λ n j page e v. ground (arith, h n j page, h (page_number paddr) j old p))
  ],
  h,
  λ n j page e v. cc,
)
