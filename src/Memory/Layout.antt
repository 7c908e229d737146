-- ===== src/Memory/Layout.antt =====
-- The address arithmetic of kernel/lib/memory/mmu.h, kernel/lib/memory/layout.h and
-- kernel/misc/util.h. Addresses and table entries are `uint64_t`, so a sum that may leave the range
-- is taken modulo 2 ^ 64.
pub mod Laws
use ann.Base.{ℕ, ◌+◌, ◌-◌, ◌*◌, ◌/◌, ◌%◌, ◌^◌, bit_and, bit_or, Bool, ◌/=◌, if◌then◌else◌}

abbrev pub u64 : ℕ → ℕ
u64 n = n % 2 ^ 64

abbrev pub page_size : ℕ
page_size = 4096

-- kernel/misc/util.h; the operands are unsigned.
unfoldable pub round_down : ℕ → ℕ → ℕ
round_down addr align = addr - addr % align

unfoldable pub round_up : ℕ → ℕ → ℕ
unfolding round_down
round_up addr align = round_down (u64 (addr + align - 1)) align

-- PML4E_ADDR, PDPE_ADDR, PDE_ADDR and PTE_ADDR are one macro under four names: `~0xfff` is an `int`
-- that is extended to 64 bits, so the mask keeps bits 12 to 63.
unfoldable pub entry_addr : ℕ → ℕ
entry_addr e = bit_and e (2 ^ 64 - 4096)

abbrev pub idx_mask : ℕ
idx_mask = 2 ^ 9 - 1

unfoldable pub pml4_idx : ℕ → ℕ
pml4_idx addr = bit_and (addr / 2 ^ 39) idx_mask

unfoldable pub pdp_idx : ℕ → ℕ
pdp_idx addr = bit_and (addr / 2 ^ 30) idx_mask

unfoldable pub pd_idx : ℕ → ℕ
pd_idx addr = bit_and (addr / 2 ^ 21) idx_mask

unfoldable pub pt_idx : ℕ → ℕ
pt_idx addr = bit_and (addr / 2 ^ 12) idx_mask

-- PAGE_ADDR: a linear address from its indices and offset, in canonical form.
unfoldable pub page_addr : (pml4 pdp pd pt off : ℕ) → ℕ
page_addr pml4 pdp pd pt off =
    let sign = if bit_and pml4 (2 ^ 8) /= 0 then u64 ((2 ^ 64 - 1) * 2 ^ 48) else 0 in
    bit_or
      (bit_or
        (bit_or (bit_or (bit_or sign (u64 (pml4 * 2 ^ 39))) (u64 (pdp * 2 ^ 30)))
          (u64 (pd * 2 ^ 21)))
        (u64 (pt * 2 ^ 12)))
      off

-- The kernel maps all physical memory from KERNEL_BASE on.
abbrev pub vaddr_base : ℕ
vaddr_base = 0xFFFF_FFF8_0000_0000

unfoldable pub vaddr : ℕ → ℕ
vaddr paddr = u64 (paddr + vaddr_base)

unfoldable pub paddr : ℕ → ℕ
paddr v = u64 (v + 2 ^ 64 - vaddr_base)

abbrev pub kernel_stack_top : ℕ
kernel_stack_top = vaddr_base

abbrev pub kernel_stack_size : ℕ
kernel_stack_size = page_size * 8

abbrev pub kernel_info : ℕ
kernel_info = kernel_stack_top - kernel_stack_size - page_size

abbrev pub apic_base : ℕ
apic_base = kernel_info - page_size

abbrev pub ioapic_base : ℕ
ioapic_base = apic_base - page_size

abbrev pub interrupt_stack_size : ℕ
interrupt_stack_size = page_size * 2

abbrev pub interrupt_stack_top : ℕ
interrupt_stack_top = ioapic_base

abbrev pub exception_stack_size : ℕ
exception_stack_size = page_size * 2

abbrev pub exception_stack_top : ℕ
exception_stack_top = interrupt_stack_top - interrupt_stack_size

abbrev pub kernel_temp : ℕ
kernel_temp = exception_stack_top - exception_stack_size - 1 * page_size

abbrev pub apic_base_pa : ℕ
apic_base_pa = 0xFEE0_0000

abbrev pub ioapic_base_pa : ℕ
ioapic_base_pa = 0xFEC0_0000

abbrev pub user_top : ℕ
user_top = 0x0000_0100_0000_0000

abbrev pub user_stack_top : ℕ
user_stack_top = 0x0000_000a_0000_0000

-- The flags of an entry; those of the upper tables (PML4E_, PDPE_, PDE_) are the same bits.
abbrev pub pte_p : ℕ
pte_p = 2 ^ 0

abbrev pub pte_w : ℕ
pte_w = 2 ^ 1

abbrev pub pte_u : ℕ
pte_u = 2 ^ 2

abbrev pub pte_flags_mask : ℕ
pte_flags_mask = 0xFFF

abbrev pub pte_cow : ℕ
pte_cow = 2 ^ 11

-- `(e & PTE_P) != 0`
unfoldable pub present : ℕ → Bool
present e = bit_and e pte_p /= 0
