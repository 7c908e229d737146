-- ===== src/Start/Tests.antt =====
-- An array of three pages: page 0 is in use, pages 1 and 2 are free.
use ann.Base.{ℕ, Option, none, some, List, [], ◌∷◌, ◌≡◌, refl, ◌==◌, if◌then◌else◌, arith}
use ann.LinkedList.{plain_list}
use ann.Start.{is_link, LinkStore, PagesState, kernel_init_mmap, convert_pages, reset_page}
use ann.Start.Laws.{Converted, kernel_init_mmap-Converted}

-- Pointers that are not 0, where the macros write some
instance abbrev some_links : LinkStore
some_links = record {
  set_links = λ p l words j. if is_link p l j then 4096 else words j;
  set_links_lem = λ p l words j h. rw h refl;
}

-- `ref`, and the two words of `links`, of each page
abbrev loaded : ℕ → ℕ
loaded j =
    if j == 0
    then 1
    else if j == 4
    then 4000
    else if j == 5
    then 4001
    else if j == 6
    then 1
    else if j == 8
    then 4002
    else 0

kernel_init_mmap-Converted_example :
    (s : PagesState) × (kernel_init_mmap 3 loaded ≡ some s) × Converted 3 loaded 0 s
kernel_init_mmap-Converted_example =
    kernel_init_mmap-Converted 3 loaded (omega arith) (λ i h. ground arith)

abbrev counters_of : Option PagesState → List ℕ
counters_of none = []
counters_of (some s) = s.words 0 ∷ s.words 6 ∷ s.words 12 ∷ s.used_pages ∷ s.free

three_pages : counters_of (kernel_init_mmap 3 loaded) ≡ 1 ∷ 0 ∷ 1 ∷ 1 ∷ 1 ∷ 2 ∷ []
unfolding kernel_init_mmap convert_pages reset_page
three_pages = refl
