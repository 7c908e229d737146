-- ===== src/Interrupt/Setup/Gates.antt =====
-- Where the gates of the table lead, and who may use them.
use ann.Base.{
  ℕ, ◌^◌, ◌<◌, Option, none, some, Bool, true, false, not, List, [], ◌∷◌, ◌≡◌, refl, arith, inl,
  inr, ◌==◌, ◌||◌, ◌&&◌, if◌then◌else◌, ==_refl, ==_no, ltb, ltb→lt, Bool-cases, holds_below,
  holds_below-lt,
}
use native.Mathlib.Decide.{ℕ_discrete}
use ann.Segment.{Gate, interrupt_gate}
use ann.Segment.Laws.{Leads, interrupt_gate-Leads}
use ann.Interrupt.Setup.{
  EntryPoint, vector_of, gd_kt, GateOf, idt_gates, Idt, set_gates, init_idt, idt_dpl_u, idt_dpl_s,
}

-- The interrupts that a program may raise itself: the breakpoint and the system call.
abbrev pub for_users : ℕ → Bool
for_users v = v == 3 || v == 34

-- Those with a stack of their own: the breakpoint, the timer and the keyboard.
abbrev pub own_stack : ℕ → Bool
own_stack v = v == 3 || (v == 32 || v == 33)

-- The vectors that have a gate.
abbrev pub handled : ℕ → Bool
handled v =
    ltb v 9
    || ((ltb 9 v && ltb v 15)
        || ((ltb 15 v && ltb v 20) || (v == 30 || (v == 32 || (v == 33 || v == 34)))))

abbrev Expected : GateOf → Type 0
Expected g =
    (handled g.vector ≡ true)
    × (vector_of g.handler ≡ g.vector)
    × (g.ist ≡ (if own_stack g.vector then 1 else 0))
    × (g.dpl ≡ (if for_users g.vector then idt_dpl_u else idt_dpl_s))

abbrev AllExpected : List GateOf → Type 0
AllExpected [] = Unit
AllExpected (g ∷ gs) = Expected g × AllExpected gs

idt_gates-AllExpected : AllExpected idt_gates
unfolding vector_of
idt_gates-AllExpected = (
  (refl, refl, refl, refl),
  (
    (refl, refl, refl, refl),
    (
      (refl, refl, refl, refl),
      (
        (refl, refl, refl, refl),
        (
          (refl, refl, refl, refl),
          (
            (refl, refl, refl, refl),
            (
              (refl, refl, refl, refl),
              (
                (refl, refl, refl, refl),
                (
                  (refl, refl, refl, refl),
                  (
                    (refl, refl, refl, refl),
                    (
                      (refl, refl, refl, refl),
                      (
                        (refl, refl, refl, refl),
                        (
                          (refl, refl, refl, refl),
                          (
                            (refl, refl, refl, refl),
                            (
                              (refl, refl, refl, refl),
                              (
                                (refl, refl, refl, refl),
                                (
                                  (refl, refl, refl, refl),
                                  (
                                    (refl, refl, refl, refl),
                                    (
                                      (refl, refl, refl, refl),
                                      (
                                        (refl, refl, refl, refl),
                                        ((refl, refl, refl, refl), ((refl, refl, refl, refl), tt)),
                                      ),
                                    ),
                                  ),
                                ),
                              ),
                            ),
                          ),
                        ),
                      ),
                    ),
                  ),
                ),
              ),
            ),
          ),
        ),
      ),
    ),
  ),
)

-- What an entry of the table is to be: nothing for a vector that is not handled; for one that is, an
-- interrupt gate to the entry point that pushes the vector's number, with the stack and the privilege
-- of the vector.
abbrev pub Guards : (EntryPoint → ℕ) → ℕ → Option Gate → Type 0
Guards entry v none = handled v ≡ false
Guards entry v (some g) =
    (handled v ≡ true)
    × (h : EntryPoint) × (vector_of h ≡ v)
    × Leads gd_kt (entry h) (if own_stack v then 1 else 0) 0xe
        (if for_users v then idt_dpl_u else idt_dpl_s) g

abbrev Led : (EntryPoint → ℕ) → ℕ → Option Gate → Type 0
Led entry v none = Unit
Led entry v (some g) = Guards entry v (some g)

abbrev is_set : Option Gate → Bool
is_set none = false
is_set (some g) = true

abbrev same_bool : Bool → Bool → Bool
same_bool true b = b
same_bool false b = not b

not_set : (b : Bool) → same_bool b false ≡ true → b ≡ false
not_set true h = cc
not_set false h = refl

module _ (entry : EntryPoint → ℕ) (in_range : (h : EntryPoint) → entry h < 2 ^ 64) where
  gate-Led :
      (g : GateOf)
      → Expected g
      → Led entry g.vector (some (interrupt_gate gd_kt (entry g.handler) g.ist g.dpl))
  gate-Led g (on, e, i, d) = (
    on,
    g.handler,
    e,
    rw (i, d)
        ((interrupt_gate-Leads gd_kt (entry g.handler) _ _ (omega arith) (in_range g.handler)
          (ground arith) (ground arith)).0),
  )

  set_gates-Led :
      (gs : List GateOf) (idt : Idt) (v : ℕ)
      → AllExpected gs
      → Led entry v (idt v)
      → Led entry v (set_gates entry gs idt v)
  unfolding set_gates
  set_gates-Led [] idt v a h = h
  set_gates-Led (g ∷ gs) idt v (here, rest) h =
      set_gates-Led gs _ v rest (elim (ℕ_discrete v g.vector) [
        | yes e ↦ rw (e, ==_refl g.vector) (gate-Led g here)
        | no ne ↦ rw (==_no ne) h
      ])

  all_set : holds_below (λ v. same_bool (handled v) (is_set (init_idt entry v))) 35 ≡ true
  unfolding holds_below init_idt set_gates
  all_set = refl

  -- Let the entry points be 64-bit addresses. Then the table that interrupt_init fills has an entry for
  -- exactly the vectors 0 to 8, 10 to 14, 16 to 19, 30 and 32 to 34: an interrupt gate that is present and
  -- leads, in the kernel's code segment, to the entry point that pushes the vector's number. A program may raise only the
  -- breakpoint and the system call itself; the breakpoint, the timer and the keyboard have a stack of
  -- their own, the first of the TSS.
  pub init_idt-Guards : (v : ℕ) → Guards entry v (init_idt entry v)
  unfolding init_idt
  init_idt-Guards v =
      go (init_idt entry v) refl (set_gates-Led idt_gates (λ v. none) v idt_gates-AllExpected tt)
    where
      go : (o : Option Gate) → init_idt entry v ≡ o → Led entry v o → Guards entry v o
      go none e l = elim (Bool-cases (ltb v 35)) [
        | inl low ↦
            let set =
              holds_below-lt (λ v. same_bool (handled v) (is_set (init_idt entry v))) 35 v all_set
                (ltb→lt v 35 low) in
            not_set (handled v) (rw e at set)
        | inr high ↦ ground arith
      ]
      go (some g) e l = l
