-- ===== src/Interrupt/Keeps/Create.antt =====
-- What task_new leaves of the tasks.
use ann.Base.{
  ℕ, ◌+◌, ◌%◌, ◌^◌, Option, none, some, true, List, List-cases, ◌∷◌, ◌≡◌, ◌≢◌, refl, arith, has,
  Distinct, head?, inl, inr, ==_refl, ==_no, subst, sym, ap, ◌∙◌,
}
use native.Mathlib.Decide.{ℕ_discrete}
use ann.LinkedList.{ListOps}
use ann.CString.{Bytes}
use ann.Memory.Machine.{Machine}
use ann.Memory.Pages.{page_alloc}
use ann.Task.{Task, dont_run, is_ready, in_array, Kernel, set_task}
use ann.Task.Create.{task_new, new_in, init_pml4, new_record, give_space, with_page}
use ann.Interrupt.Keeps.{is_free, is_some, Entered, Ends, ended, go_on-Ends}
use ann.Interrupt.Keeps.Tasks.{ready-not_free, replaced-Sound}

module _ ⦃q : ListOps⦄ (c : ℕ) where
  -- The task that task_new has made is on no list, and runs only when its state is changed.
  pub record Made (k : Kernel) (o : Option ℕ) (k' : Kernel) : Type 0 where
    pub sound : Entered c k'
    pub same : is_ready (k.tasks c).state ≡ true → k'.tasks c ≡ k.tasks c
    pub made :
        (i : ℕ)
        → o ≡ some i
        → ((k'.tasks i).state ≡ dont_run)
          × (is_some (k'.tasks i).pml4 ≡ true)
          × (is_ready (k.tasks c).state ≡ true → i ≢ c)

  -- The first free task.
  module _ (k : Kernel) (s : Entered c k) (i : ℕ) (l : List ℕ) (first : k.free_tasks ≡ i ∷ l) where
    listed_first : has i k.free_tasks ≡ true
    listed_first = rw first (ground arith)

    apart : is_ready (k.tasks c).state ≡ true → i ≢ c
    apart on e =
        ready-not_free (k.tasks c).state on
          (subst (λ x. is_free (k.tasks x).state ≡ true) e ((s.fits i).unused listed_first))

    rest_Distinct : Distinct l
    rest_Distinct = (rw first at s.distinct).1

    without : q.remove i k.free_tasks ≡ l
    without = q.remove_lem i k.free_tasks s.distinct listed_first ∙ rw first (rw (==_refl i) refl)

    same_others : (j : ℕ) → j ≢ i → has j l ≡ has j k.free_tasks
    same_others j ne = rw (first, ==_no ne) refl

    -- Task `i` gets a fresh record, READY no more.
    taken-Made :
        (o : Option ℕ) (k' : Kernel)
        → k'.free_tasks ≡ l
        → k'.cpu_task ≡ k.cpu_task
        → (k'.tasks i).state ≡ dont_run
        → ((j : ℕ) → j ≢ i → k'.tasks j ≡ k.tasks j)
        → ((j : ℕ) → o ≡ some j → j ≡ i)
        → ((j : ℕ) → o ≡ some j → is_some (k'.tasks i).pml4 ≡ true)
        → Made k o k'
    taken-Made o k' el ep st others only space = record {
      sound =
          replaced-Sound c i k.tasks k'.tasks k.free_tasks k'.free_tasks k.cpu_task k'.cpu_task s
            others (λ j ne. rw el (same_others j ne)) (rw el rest_Distinct)
            (record {
              idle = rw st refl;
              unused = λ h. cc (h, el, (rw first at s.distinct).0);
              has_space = λ h. cc (rw st at h);
            })
            (λ on. elim (ℕ_discrete c i) [
              | yes e ↦ cc (rw (e, st) at on)
              | no ne ↦ ep ∙ s.current (rw (others c ne) at on)
            ]);
      same = λ on. others c (λ e. apart on (sym e));
      made = λ j e. (rw (only j e) st, rw (only j e) (space j e), λ on. rw (only j e) (apart on));
    }

    with_page-Ends :
        (id : ℕ) (t : Task) (o : Option ℕ) (m : Machine)
        → t.state ≡ dont_run
        → Ends (Made k) (
            with_page i k.kernel_pml4 t o (
              set_task
                (record k { machine = m; free_tasks = l; last_task_id = id })
                (in_array i)
                t))
    with_page-Ends id t none m st = ended (
        taken-Made none _ refl refl (rw (==_refl i) st) (λ j ne. rw (==_no ne) refl) (λ j e. cc)
          (λ j e. cc))
    with_page-Ends id t (some p) m st =
        go_on-Ends
          (set_task (record k { machine = m; free_tasks = l; last_task_id = id }) (in_array i) t)
          (init_pml4 k.kernel_pml4 p m) (give_space i p t)
          (λ _ m2. ended (
            taken-Made (some i) _ refl refl (rw (==_refl i) st) (λ j ne. rw (==_no ne) refl)
              (λ j e. cc) (λ j e. rw (==_refl i) refl)))

    new_in-Ends : (name : Bytes) → Ends (Made k) (new_in i name k)
    unfolding new_in
    new_in-Ends name =
        let id = (k.last_task_id + 1) % 2 ^ 32 in
        let t = new_record name id in
        rw without (
          go_on-Ends (set_task (record k { free_tasks = l; last_task_id = id }) (in_array i) t)
            (page_alloc k.machine) (with_page i k.kernel_pml4 t)
            (λ o m. with_page-Ends id t o m refl))

  pub task_new-Ends : (name : Bytes) (k : Kernel) → Entered c k → Ends (Made k) (task_new name k)
  unfolding task_new
  task_new-Ends name k s = elim (List-cases k.free_tasks) [
    | inl nil ↦
        let e : q.first k.free_tasks ≡ none = q.first_lem k.free_tasks ∙ ap head? nil in
        rw (task_new, e) (ended (record { sound = s; same = λ on. refl; made = λ i h. cc }))
    | inr (i, l, first) ↦
        let e : q.first k.free_tasks ≡ some i = q.first_lem k.free_tasks ∙ ap head? first in
        rw (task_new, e) (new_in-Ends k s i l first name)
  ]
