-- ===== src/Memory/Machine.antt =====
-- The state that the memory code works on, and commands over it.
use ann.Base.{ℕ, Option, none, some, Bool, true, false, List, update}

-- `mem` holds the 64-bit words of physical memory by address. A kernel pointer into the linear
-- mapping is written by the physical address that it stands for, since VADDR only adds a constant.
-- A `struct page *` is the index of its page: `ref` is the reference counter of each page, `free`
-- the sequence of pages on the free list.
pub record Machine : Type 0 where
  pub mem : ℕ → ℕ
  pub ref : ℕ → ℕ
  pub free : List ℕ
  pub pages_cnt : ℕ

-- `panic` is a failed assertion: kernel_panic prints and never returns.
pub data Run (A : Type 0) : Type 0 where
  ok : A → Machine → Run A
  panic : Run A

abbrev pub Cmd : Type 0 → Type 0
Cmd A = Machine → Run A

abbrev pub pure : {A : Type 0} → A → Cmd A
pure a m = ok a m

module _ {A B : Type 0} where
  abbrev pub and_then : Run A → (A → Cmd B) → Run B
  and_then (ok a m) k = k a m
  and_then panic k = panic

  infixl 5 ◌>>=◌
  abbrev pub ◌>>=◌ : Cmd A → (A → Cmd B) → Cmd B
  ◌>>=◌ c k m = and_then (c m) k

infixl 5 ◌>>◌
abbrev pub ◌>>◌ : {B : Type 0} → Cmd (Unit {0}) → Cmd B → Cmd B
c >> k = c >>= λ _. k

-- `if ((x = ...) == NULL) return NULL;`, and the rest of the function.
abbrev pub or_null : {A B : Type 0} → Cmd (Option A) → (A → Cmd (Option B)) → Cmd (Option B)
or_null c k = c >>= λ o. elim o [ none ↦ pure none | some a ↦ k a ]

abbrev pub assert : Bool → Cmd (Unit {0})
assert true = pure tt
assert false = λ _. panic

-- `*addr` and `*addr = w`
abbrev pub load : ℕ → Cmd ℕ
load addr m = ok (m.mem addr) m

abbrev pub store : ℕ → ℕ → Cmd (Unit {0})
store addr w m = ok tt (record m { mem = update m.mem addr w })

abbrev pub get_ref : ℕ → Cmd ℕ
get_ref p m = ok (m.ref p) m

abbrev pub set_ref : ℕ → ℕ → Cmd (Unit {0})
set_ref p n m = ok tt (record m { ref = update m.ref p n })
