-- ===== src/Loader/Laws.antt =====
-- What the loader finds out about memory.
use ann.Base.{
  ℕ, zero, suc, ◌+◌, ◌-◌, ◌*◌, ◌/◌, ◌%◌, ◌^◌, ◌<◌, ◌≤◌, true, false, ◌≡◌, refl, ◌==◌, ◌/=◌, ltb,
  leb, ◌&&◌, arith, Bool-cases, inl, inr, ◌⊎◌, subst, ◌∙◌, sym,
}
use native.Mathlib.Decide.{ℕ_discrete}
use native.Mathlib.Nat.{div-add-mod, mul-mod_right, mod-lt}
use ann.Memory.Layout.{round_down, u64, page_size, apic_base_pa, ioapic_base_pa}
use ann.Loader.{
  BiosMmapEntry, memory_type_free, loader_alloc, max_address, loader_detect_memory, check_areas,
  page_is_available,
}

-- `size` bytes at the result: aligned, behind all that was allocated before, and before all that
-- comes later.
pub record Allocates (size align free_memory ret free_memory' : ℕ) : Type 0 where
  pub aligned : ret % align ≡ 0
  pub fresh : free_memory ≤ ret
  pub close : ret < free_memory + align
  pub next : free_memory' ≡ ret + size

mod-sub-mod : (a k : ℕ) → (a - a % k) % k ≡ 0
mod-sub-mod a k =
    let whole : a - a % k ≡ k * (a / k) = omega (arith, div-add-mod a k) in
    rw whole (mul-mod_right k (a / k))

-- If the area ends below 4 GB, loader_alloc returns aligned memory behind all that was allocated
-- before, skips less than the alignment, and moves `free_memory` to the end of the area.
pub loader_alloc-Allocates :
    (size align free_memory : ℕ)
    → 0 < align
    → free_memory + align + size < 2 ^ 32
    → Allocates size align free_memory
        (loader_alloc size align free_memory).0
        (loader_alloc size align free_memory).1
unfolding loader_alloc
loader_alloc-Allocates size align free_memory h k =
    let up = free_memory + align - 1 in
    let low : up % 2 ^ 32 ≡ up = omega arith in
    let part = mod-lt up h in
    let area : up - up % align + size < 2 ^ 32 = omega arith in
    rw low (record {
      aligned = mod-sub-mod up align;
      fresh = omega (arith, part);
      close = omega arith;
      next = omega (arith, area);
    })

abbrev pub end_of : BiosMmapEntry → ℕ
end_of e = u64 (e.base_addr + e.addr_len)

-- The greatest end of a free area among the first `n`, or 0.
pub record IsMax (mm : ℕ → BiosMmapEntry) (n max : ℕ) : Type 0 where
  pub above : (i : ℕ) → i < n → (mm i).type_of ≡ memory_type_free → end_of (mm i) ≤ max
  pub reached :
      (max ≡ 0) ⊎ ((i : ℕ) × (i < n) × ((mm i).type_of ≡ memory_type_free) × (end_of (mm i) ≡ max))

skip :
    (i max : ℕ) (mm : ℕ → BiosMmapEntry)
    → IsMax mm i max
    → ((mm i).type_of ≡ memory_type_free → end_of (mm i) ≤ max)
    → IsMax mm (i + 1) max
skip i max mm s low = record {
  above = λ j h f. elim (ℕ_discrete j i) [
    | yes e ↦ rw e (low (subst (λ k. (mm k).type_of ≡ memory_type_free) e f))
    | no ne ↦ s.above j (omega arith) f
  ];
  reached = elim (s.reached) [ inl z ↦ inl z | inr (j, h, f, e) ↦ inr (j, omega arith, f, e) ];
}

raise :
    (i max : ℕ) (mm : ℕ → BiosMmapEntry)
    → IsMax mm i max
    → (mm i).type_of ≡ memory_type_free
    → max ≤ end_of (mm i)
    → IsMax mm (i + 1) (end_of (mm i))
raise i max mm s f high = record {
  above = λ j h on. elim (ℕ_discrete j i) [
    | yes e ↦ rw e (omega arith)
    | no ne ↦ (let old = s.above j (omega arith) on in omega arith)
  ];
  reached = inr (i, omega arith, f, refl);
}

max_address-IsMax :
    (n i k max : ℕ) (mm : ℕ → BiosMmapEntry)
    → i + n ≡ k
    → IsMax mm i max
    → IsMax mm k (max_address n i max mm)
unfolding max_address
max_address-IsMax zero i k max mm e s =
    let all : i ≡ k = omega arith in subst (λ c. IsMax mm c max) all s
max_address-IsMax (suc n) i k max mm e s = elim (Bool-cases ((mm i).type_of /= memory_type_free)) [
  | inl used ↦
      rw used
        (max_address-IsMax n (i + 1) k max mm (omega arith) (skip i max mm s (λ f. ground arith)))
  | inr free ↦ rw free (elim (Bool-cases (ltb (end_of (mm i)) max)) [
    | inl less ↦
        rw less
          (max_address-IsMax n (i + 1) k max mm (omega arith) (skip i max mm s (λ f. ground arith)))
    | inr more ↦ rw more (
        max_address-IsMax n (i + 1) k (end_of (mm i)) mm (omega arith)
          (raise i max mm s (ground arith) (ground arith)))
  ])
]

-- loader_detect_memory finds the greatest end of a free area among the `cnt` areas, and the number
-- of whole pages below it.
pub loader_detect_memory-IsMax :
    (mm : ℕ → BiosMmapEntry) (cnt : ℕ)
    → IsMax mm cnt (loader_detect_memory mm cnt).0
      × ((loader_detect_memory mm cnt).1 ≡ (loader_detect_memory mm cnt).0 / page_size)
unfolding loader_detect_memory round_down
loader_detect_memory-IsMax mm cnt = (
  max_address-IsMax cnt 0 cnt 0 mm (omega arith)
      (record { above = λ i h. absurd (omega arith); reached = inl refl }),
  omega arith,
)

-- The area lets the page at `addr` be used: it starts behind `addr`, or ends within the page or before
-- it, or is free memory.
abbrev pub Allows : BiosMmapEntry → ℕ → Type 0
Allows e addr =
    (addr < e.base_addr) ⊎ ((end_of e ≤ u64 (addr + page_size)) ⊎ (e.type_of ≡ memory_type_free))

check_areas-Allows :
    (n addr : ℕ) (mm : ℕ → BiosMmapEntry) → Allows (mm 0) addr → check_areas n addr mm true ≡ true
unfolding check_areas
check_areas-Allows zero addr mm a = refl
check_areas-Allows (suc n) addr mm a = let rest = check_areas-Allows n addr mm a in ground arith

check_areas-zero : (addr : ℕ) (mm : ℕ → BiosMmapEntry) → check_areas zero addr mm true ≡ true
unfolding check_areas
check_areas-zero addr mm = refl

check_areas-false : (n addr : ℕ) (mm : ℕ → BiosMmapEntry) → check_areas n addr mm false ≡ false
unfolding check_areas
check_areas-false zero addr mm = refl
check_areas-false (suc n) addr mm = let rest = check_areas-false n addr mm in ground arith

allowed :
    (n addr : ℕ) (mm : ℕ → BiosMmapEntry)
    → check_areas (suc n) addr mm true ≡ true
    → Allows (mm 0) addr
unfolding check_areas
allowed n addr mm h =
    let off = check_areas-false n addr mm in
    elim (Bool-cases (ltb addr (mm 0).base_addr)) [
      | inl behind ↦ inl (ground arith)
      | inr started ↦ elim (Bool-cases (leb (end_of (mm 0)) (u64 (addr + page_size)))) [
        | inl ends ↦ inr (inl (ground arith))
        | inr goes_on ↦ elim (Bool-cases ((mm 0).type_of == memory_type_free)) [
          | inl free ↦ inr (inr (ground arith))
          | inr used ↦ absurd (ground arith)
        ]
      ]
    ]

-- The addresses that the loader keeps for itself, for the BIOS and for the interrupt controllers.
pub data IsReserved (end free_memory : ℕ) : ℕ → Type 0 where
  bios : (addr : ℕ) → addr ≡ 0 → IsReserved end free_memory addr
  apic :
      (addr : ℕ)
      → apic_base_pa ≤ addr
      → addr < apic_base_pa + page_size
      → IsReserved end free_memory addr
  ioapic :
      (addr : ℕ)
      → ioapic_base_pa ≤ addr
      → addr < ioapic_base_pa + page_size
      → IsReserved end free_memory addr
  image : (addr : ℕ) → end ≤ addr → addr < free_memory → IsReserved end free_memory addr

IsReserved-false :
    (addr cnt end free_memory : ℕ) (mm : ℕ → BiosMmapEntry)
    → IsReserved end free_memory addr
    → page_is_available addr mm cnt end free_memory ≡ false
unfolding page_is_available
IsReserved-false addr cnt end free_memory mm (bios _ z) = ground arith
IsReserved-false addr cnt end free_memory mm (apic _ lo hi) = ground arith
IsReserved-false addr cnt end free_memory mm (ioapic _ lo hi) = ground arith
IsReserved-false addr cnt end free_memory mm (image _ lo hi) = ground arith

IsReserved-or :
    (addr cnt end free_memory : ℕ) (mm : ℕ → BiosMmapEntry)
    → IsReserved end free_memory addr
      ⊎ (page_is_available addr mm cnt end free_memory ≡ check_areas cnt addr mm true)
unfolding page_is_available
IsReserved-or addr cnt end free_memory mm = elim (Bool-cases (addr == 0)) [
  | inl z ↦ inl (bios addr (ground arith))
  | inr a ↦ elim (Bool-cases (leb apic_base_pa addr && ltb addr (apic_base_pa + page_size))) [
    | inl on ↦ inl (apic addr (ground arith) (ground arith))
    | inr b ↦ elim (Bool-cases (leb ioapic_base_pa addr && ltb addr (ioapic_base_pa + page_size))) [
      | inl on ↦ inl (ioapic addr (ground arith) (ground arith))
      | inr c ↦ elim (Bool-cases (leb end addr && ltb addr free_memory)) [
        | inl on ↦ inl (image addr (ground arith) (ground arith))
        | inr d ↦ inr (rw (a, b, c, d) refl)
      ]
    ]
  ]
]

-- page_is_available is `false` for every reserved address. For all others it is `true` if the memory
-- map is empty or its first area allows the page: the area starts behind the address, or
-- does not reach beyond the page, or is free memory. And it is `true` for no other page: the areas after the first do
-- not count.
pub page_is_available_lem :
    (addr cnt end free_memory : ℕ) (mm : ℕ → BiosMmapEntry)
    → (IsReserved end free_memory addr → page_is_available addr mm cnt end free_memory ≡ false)
      × ((IsReserved end free_memory addr
            ⊎ (((cnt ≡ 0) ⊎ Allows (mm 0) addr)
                → page_is_available addr mm cnt end free_memory ≡ true))
          × (page_is_available addr mm cnt end free_memory ≡ true → (cnt ≡ 0) ⊎ Allows (mm 0) addr))
page_is_available_lem addr zero end free_memory mm = (
  IsReserved-false addr zero end free_memory mm,
  (
    elim (IsReserved-or addr zero end free_memory mm) [
      | inl kept ↦ inl kept
      | inr e ↦ inr (λ h. e ∙ check_areas-zero addr mm)
    ],
    λ on. inl refl,
  ),
)
page_is_available_lem addr (suc n) end free_memory mm = (
  IsReserved-false addr (suc n) end free_memory mm,
  (
    elim (IsReserved-or addr (suc n) end free_memory mm) [
      | inl kept ↦ inl kept
      | inr e ↦ inr (λ h. elim h [
        | inl none_read ↦ absurd (omega arith)
        | inr a ↦ e ∙ check_areas-Allows (suc n) addr mm a
      ])
    ],
    λ on. elim (IsReserved-or addr (suc n) end free_memory mm) [
      | inl kept ↦ (let off = IsReserved-false addr (suc n) end free_memory mm kept in cc)
      | inr e ↦ inr (allowed n addr mm (sym e ∙ on))
    ],
  ),
)
