-- ===== src/Memory/Layout/Laws.antt =====
-- The macros as arithmetic, and the laws between them.
use ann.Base.{
  ℕ, ◌+◌, ◌-◌, ◌*◌, ◌/◌, ◌%◌, ◌^◌, ◌≤◌, ◌<◌, ◌≡◌, ◌⊎◌, ◌==◌, arith, bit_or_field, bit_and_high,
  bit_and_mask, bit_and_flag,
}
use ann.Memory.Layout.{entry_addr, pml4_idx, pdp_idx, pd_idx, pt_idx, page_addr, present}

pub present_mod : (e : ℕ) → present e ≡ (e % 2 == 1)
unfolding present
present_mod e = ground (arith, bit_and_mask 1 e)

module _ (va : ℕ) where
  pub pml4_idx_mod : pml4_idx va ≡ va / 2 ^ 39 % 512
  unfolding pml4_idx
  pml4_idx_mod = bit_and_mask 9 (va / 2 ^ 39)

  pub pdp_idx_mod : pdp_idx va ≡ va / 2 ^ 30 % 512
  unfolding pdp_idx
  pdp_idx_mod = bit_and_mask 9 (va / 2 ^ 30)

  pub pd_idx_mod : pd_idx va ≡ va / 2 ^ 21 % 512
  unfolding pd_idx
  pd_idx_mod = bit_and_mask 9 (va / 2 ^ 21)

  pub pt_idx_mod : pt_idx va ≡ va / 2 ^ 12 % 512
  unfolding pt_idx
  pt_idx_mod = bit_and_mask 9 (va / 2 ^ 12)

pub ruleset index_laws = (pml4_idx_mod, pdp_idx_mod, pd_idx_mod, pt_idx_mod)

-- The frame that an entry names.
abbrev pub frame_of : ℕ → ℕ
frame_of e = e / 4096 % 2 ^ 52

pub entry_addr_frame : (e : ℕ) → entry_addr e ≡ frame_of e * 4096
unfolding entry_addr
entry_addr_frame e = bit_and_high 12 52 e

module _ {i j k l off : ℕ} (hi : i < 512) (hj : j < 512) (hk : k < 512) (hl : l < 512)
    (ho : off < 4096) where
  -- PAGE_ADDR puts its fields side by side, below the sign extension.
  pub page_addr_sum :
      page_addr i j k l off
      ≡ i / 256 * (2 ^ 64 - 2 ^ 48) + i * 2 ^ 39 + j * 2 ^ 30 + k * 2 ^ 21 + l * 2 ^ 12 + off
  unfolding page_addr
  page_addr_sum = ground (
    arith,
    bit_and_flag 8 i,
    bit_or_field 48 (i / 256 * (2 ^ 16 - 1)) (i * 2 ^ 39),
    bit_or_field 39 (i / 256 * (2 ^ 25 - 2 ^ 9) + i) (j * 2 ^ 30),
    bit_or_field 30 ((i / 256 * (2 ^ 25 - 2 ^ 9) + i) * 512 + j) (k * 2 ^ 21),
    bit_or_field 21 (((i / 256 * (2 ^ 25 - 2 ^ 9) + i) * 512 + j) * 512 + k) (l * 2 ^ 12),
    bit_or_field 12 ((((i / 256 * (2 ^ 25 - 2 ^ 9) + i) * 512 + j) * 512 + k) * 512 + l) off,
  )

  -- The index macros read back what PAGE_ADDR was given.
  pub idx-page_addr :
      (pml4_idx (page_addr i j k l off) ≡ i)
      × (pdp_idx (page_addr i j k l off) ≡ j)
      × (pd_idx (page_addr i j k l off) ≡ k)
      × (pt_idx (page_addr i j k l off) ≡ l)
  idx-page_addr = simp index_laws (omega (arith, page_addr_sum))

-- A canonical address is put together again from its indices and its offset.
pub page_addr-idx :
    (va : ℕ)
    → (va < 2 ^ 47) ⊎ ((2 ^ 64 - 2 ^ 47 ≤ va) × (va < 2 ^ 64))
    → page_addr (pml4_idx va) (pdp_idx va) (pd_idx va) (pt_idx va) (va % 4096) ≡ va
page_addr-idx va canonical = ground (
  arith,
  pml4_idx_mod va,
  pdp_idx_mod va,
  pd_idx_mod va,
  pt_idx_mod va,
  page_addr_sum {i = va / 2 ^ 39 % 512} {j = va / 2 ^ 30 % 512} {k = va / 2 ^ 21 % 512}
      {l = va / 2 ^ 12 % 512} {off = va % 4096} (omega arith) (omega arith) (omega arith)
      (omega arith) (omega arith),
)
