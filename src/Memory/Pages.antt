-- ===== src/Memory/Pages.antt =====
-- Page allocation and reference counters: page_alloc to page2kva of kernel/lib/memory/map.c.
pub mod Laws
use ann.Base.{
  ℕ, ◌+◌, ◌-◌, ◌*◌, ◌/◌, ◌%◌, ◌^◌, Option, none, some, Bool, update, ◌==◌, ltb, if◌then◌else◌, leb,
  ◌&&◌,
}
use ann.LinkedList.{ListOps}
use ann.Memory.Layout.{u64, page_size}
use ann.Memory.Machine.{Machine, Cmd, Run, ok, pure, ◌>>=◌, ◌>>◌, assert, get_ref, set_ref, store}

-- `memset` of a page at address `base`.
unfoldable pub clear_page : ℕ → Cmd (Unit {0})
clear_page base m =
    ok tt (record m { mem = λ a. if leb base a && ltb a (base + page_size) then 0 else m.mem a })

unfoldable pub page2pa : ℕ → ℕ
page2pa p = u64 (p * 2 ^ 12)

unfoldable pub pa2page : ℕ → ℕ
pa2page addr = addr / 2 ^ 12

unfoldable pub page_incref : ℕ → Cmd (Unit {0})
page_incref p = do n ← get_ref p; set_ref p ((n + 1) % 2 ^ 32)

module _ ⦃q : ListOps⦄ where
  unfoldable pub unlink : ℕ → Cmd (Unit {0})
  unlink p m = ok tt (record m { free = q.remove p m.free })

  unfoldable pub link_head : ℕ → Cmd (Unit {0})
  link_head p m = ok tt (record m { free = q.insert_head p m.free })

  -- The `memset` of the page's record sets the counter to 0 and the links to NULL.
  unfoldable pub page_alloc : Cmd (Option ℕ)
  unfolding unlink
  page_alloc m = elim (q.first m.free) [
    | none ↦ ok none m
    | some p ↦ (unlink p >> set_ref p 0 >> pure (some p)) m
  ]

  unfoldable pub page_free : ℕ → Cmd (Unit {0})
  unfolding link_head
  page_free p = link_head p >> (do n ← get_ref p; assert (n == 0))

  unfoldable pub page_decref : ℕ → Cmd (Unit {0})
  page_decref p = do
    n ← get_ref p
    assert (ltb 0 n)
    set_ref p (n - 1)
    if n - 1 == 0 then page_free p else pure tt
