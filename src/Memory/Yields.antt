-- ===== src/Memory/Yields.antt =====
-- Total correctness of a command: it does not panic, and its result and the new state satisfy `P`.
use ann.Base.{Option, none, some}
use ann.Memory.Machine.{Machine, Run, ok, Cmd, and_then, pure}

pub data Yields {A : Type 0} (P : A → Machine → Type 0) : Run A → Type 0 where
  yields : {a : A} {m : Machine} → P a m → Yields P (ok a m)

module _ {A B : Type 0} {P : A → Machine → Type 0} {R : B → Machine → Type 0} where
  pub after :
      {r : Run A} {k : A → Cmd B}
      → Yields P r
      → ((a : A) (m : Machine) → P a m → Yields R (k a m))
      → Yields R (and_then r k)
  after (yields h) next = next _ _ h

module _ {A B : Type 0} {P : Option A → Machine → Type 0} {R : Option B → Machine → Type 0} where
  pub after_or_null :
      {r : Run (Option A)} {k : A → Cmd (Option B)}
      → Yields P r
      → ((m' : Machine) → P none m' → R none m')
      → ((a : A) (m' : Machine) → P (some a) m' → Yields R (k a m'))
      → Yields R (and_then r (λ o. elim o [ none ↦ pure none | some a ↦ k a ]))
  after_or_null (yields {a = none} h) gone next = yields (gone _ h)
  after_or_null (yields {a = some a} h) gone next = next a _ h

module _ {A B : Type 0} {P : Option A → Machine → Type 0} {R : B → Machine → Type 0} where
  -- The rest of a function that tests a pointer for NULL.
  pub after_option :
      {r : Run (Option A)} {d : Cmd B} {k : A → Cmd B}
      → Yields P r
      → ((m' : Machine) → P none m' → Yields R (d m'))
      → ((a : A) (m' : Machine) → P (some a) m' → Yields R (k a m'))
      → Yields R (and_then r (λ o. elim o [ none ↦ d | some a ↦ k a ]))
  after_option (yields {a = none} h) gone next = gone _ h
  after_option (yields {a = some a} h) gone next = next a _ h

pub Yields-both :
    {A : Type 0} {P R : A → Machine → Type 0} {r : Run A}
    → Yields P r
    → Yields R r
    → Yields (λ a m. P a m × R a m) r
Yields-both (yields h) (yields k) = yields (h, k)

pub Yields-weaken :
    {A : Type 0} {P R : A → Machine → Type 0} {r : Run A}
    → Yields P r
    → ((a : A) (m : Machine) → P a m → R a m)
    → Yields R r
Yields-weaken (yields h) f = yields (f _ _ h)
