-- ===== src/LinkedList.antt =====
-- The intrusive lists of src/stdlib/queue.h, which is a copy of the BSD queue(3) macros. The kernel
-- keeps its free pages and its free tasks on such lists, so their operations are a parameter: a
-- list is the sequence of the elements that are linked, by their index in the array they live in.
use ann.Base.{ℕ, ◌≡◌, refl, true, false, Option, List, ◌∷◌, head?, has, Distinct, erase}

-- LIST_FIRST, LIST_INSERT_HEAD and LIST_REMOVE, with what queue(3) says of them. An element is
-- inserted only while it is on no list, and removed only while it is on this one: of other calls
-- nothing is said.
pub record ListOps : Type 0 where
  pub first : List ℕ → Option ℕ
  pub insert_head : ℕ → List ℕ → List ℕ
  pub remove : ℕ → List ℕ → List ℕ
  pub first_lem : (l : List ℕ) → first l ≡ head? l
  pub insert_head_lem : (x : ℕ) (l : List ℕ) → has x l ≡ false → insert_head x l ≡ x ∷ l
  pub remove_lem : (x : ℕ) (l : List ℕ) → Distinct l → has x l ≡ true → remove x l ≡ erase x l

-- Plain lists meet the description.
instance abbrev pub plain_list : ListOps
plain_list = record {
  first = head?;
  insert_head = ◌∷◌;
  remove = erase;
  first_lem = λ l. refl;
  insert_head_lem = λ x l h. refl;
  remove_lem = λ x l d h. refl;
}
