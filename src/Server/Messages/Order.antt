-- ===== src/Server/Messages/Order.antt =====
-- src/server.rs: the responses of a batch stand in the order of its items.
use mathlib.Core.Path.{subst, ◌≡⟨◌⟩◌, ◌∎}
use mathlib.Core.List.{Memᴰ}
use intermcp.Server.Messages.{handle_item, Wire, Task, run_tasks, sort_by_index, insert_result}
use intermcp.Prelude.{
  All-append, Bool-cases, inl, inr, ◌≡◌, refl, ap, sym, ◌∙◌, arith, ℕ, ◌<◌, Option, List, [], ◌∷◌,
  ◌++◌, All, ltb,
}
use intermcp.Server.State.{Server, Host, JsonRpcResponse}

-- `ys` is an order in which the tasks `xs` may be completed: each task comes anywhere among the
-- later ones.
pub data Completes : List Task → List Task → Type 0 where
  none_left : Completes [] []
  completes :
      (x : Task) (xs before behind ys zs : List Task)
      → Completes xs ys
      → ys ≡ before ++ behind
      → zs ≡ before ++ x ∷ behind
      → Completes (x ∷ xs) zs

-- The tasks are numbered upwards.
abbrev pub AreNumbered : List Task → Type 0
AreNumbered [] = Unit
AreNumbered (x ∷ xs) = All (λ y. x.index < y.index) xs × AreNumbered xs

module _ {ℓ} {A : Type ℓ} where
  -- Two results with different places are inserted in either order.
  insert-insert :
      (p q : ℕ × A) (rs : List (ℕ × A))
      → p.0 < q.0
      → insert_result q (insert_result p rs) ≡ insert_result p (insert_result q rs)
  unfolding insert_result
  insert-insert p q [] h = ground arith
  insert-insert p q (r ∷ rs) h = ground (arith, insert-insert p q rs)

  -- A result below all of a list stands at its head.
  insert-first :
      (p : ℕ × A) (rs : List (ℕ × A)) → All (λ r. p.0 < r.0) rs → insert_result p rs ≡ p ∷ rs
  unfolding insert_result
  insert-first p [] h = refl
  insert-first p (r ∷ rs) h = ground (arith, h.0)

  -- A result below all that stand before it can be moved to the front before sorting.
  sort-front :
      (p : ℕ × A) (before behind : List (ℕ × A))
      → All (λ r. p.0 < r.0) before
      → sort_by_index (before ++ p ∷ behind) ≡ sort_by_index (p ∷ before ++ behind)
  unfolding sort_by_index
  sort-front p [] behind h = refl
  sort-front p (r ∷ before) behind h =
      ap (insert_result r) (sort-front p before behind h.1)
      ∙ insert-insert p r (sort_by_index (before ++ behind)) h.0

  sort-first :
      (p : ℕ × A) (rs : List (ℕ × A)) → sort_by_index (p ∷ rs) ≡ insert_result p (sort_by_index rs)
  unfolding sort_by_index
  sort-first p rs = refl

  All-insert :
      (P : ℕ × A → Type 0) (p : ℕ × A) (rs : List (ℕ × A))
      → P p
      → All P rs
      → All P (insert_result p rs)
  unfolding insert_result
  All-insert P p [] h hs = (h, tt)
  All-insert P p (r ∷ rs) h hs = elim (Bool-cases (ltb r.0 p.0)) [
    | inl later ↦ rw later (hs.0, All-insert P p rs h hs.1)
    | inr here ↦ rw here (h, hs)
  ]

  All-sort : (P : ℕ × A → Type 0) (rs : List (ℕ × A)) → All P rs → All P (sort_by_index rs)
  unfolding sort_by_index
  All-sort P [] h = tt
  All-sort P (r ∷ rs) h = All-insert P r (sort_by_index rs) h.0 (All-sort P rs h.1)

  -- The places of results, in their order.
  abbrev pub places : List (ℕ × A) → List (ℕ × Unit {0})
  places [] = []
  places (r ∷ rs) = (r.0, tt) ∷ places rs

  places-insert :
      (p : ℕ × A) (rs : List (ℕ × A))
      → places (insert_result p rs) ≡ insert_result (p.0, tt) (places rs)
  unfolding insert_result
  places-insert p [] = refl
  places-insert p (r ∷ rs) = ground (arith, places-insert p rs)

  places-sort : (rs : List (ℕ × A)) → places (sort_by_index rs) ≡ sort_by_index (places rs)
  unfolding sort_by_index
  places-sort [] = refl
  places-sort (r ∷ rs) =
      places-insert r (sort_by_index rs) ∙ ap (insert_result (r.0, tt)) (places-sort rs)

abbrev pub task_places : List Task → List (ℕ × Unit {0})
task_places [] = []
task_places (t ∷ ts) = (t.index, tt) ∷ task_places ts

task_places-append : (ts us : List Task) → task_places (ts ++ us) ≡ task_places ts ++ task_places us
task_places-append [] us = refl
task_places-append (t ∷ ts) us = ap (λ r. (t.index, tt) ∷ r) (task_places-append ts us)

All-split : (P : Task → Type 0) (ts us : List Task) → All P (ts ++ us) → All P ts × All P us
All-split P [] us h = (tt, h)
All-split P (t ∷ ts) us h = let (a, b) = All-split P ts us h.1 in ((h.0, a), b)

-- What holds of all tasks holds of them in any order.
Completes-All : (P : Task → Type 0) (xs zs : List Task) → Completes xs zs → All P xs → All P zs
Completes-All P xs zs none_left h = tt
Completes-All P xs zs (completes x xs' before behind ys zs' c e f) h =
    let (first, last) =
      All-split P before behind (subst (All P) e (Completes-All P xs' ys c h.1)) in
    subst (All P) (sym f) (All-append P before (x ∷ behind) first (h.0, last))

places-below :
    (x : Task) (ts : List Task)
    → All (λ y. x.index < y.index) ts
    → All (λ r. x.index < r.0) (task_places ts)
places-below x [] h = tt
places-below x (t ∷ ts) h = (h.0, places-below x ts h.1)

sort-Completes :
    (xs zs : List Task)
    → Completes xs zs
    → AreNumbered xs
    → sort_by_index (task_places zs) ≡ task_places xs
sort-Completes xs zs none_left h = unfold sort_by_index in refl
sort-Completes xs zs (completes x xs' before behind ys zs' c e f) (below, numbered) =
    let among : All (λ y. x.index < y.index) (before ++ behind) =
      subst (All (λ y. x.index < y.index)) e
        (Completes-All (λ y. x.index < y.index) xs' ys c below) in
    let (first, last) = All-split (λ y. x.index < y.index) before behind among in
    let place : ℕ × Unit {0} = (x.index, tt) in
    sort_by_index (task_places zs')
    ≡⟨ ap sort_by_index (ap task_places f ∙ task_places-append before (x ∷ behind)) ⟩
      sort_by_index (task_places before ++ place ∷ task_places behind)
    ≡⟨ sort-front place (task_places before) (task_places behind) (places-below x before first) ⟩
      sort_by_index (place ∷ task_places before ++ task_places behind)
    ≡⟨ sort-first place (task_places before ++ task_places behind) ⟩
      insert_result place (sort_by_index (task_places before ++ task_places behind))
    ≡⟨ ap (λ r. insert_result place (sort_by_index r))
        (sym (ap task_places e ∙ task_places-append before behind)) ⟩
      insert_result place (sort_by_index (task_places ys))
    ≡⟨ ap (insert_result place) (sort-Completes xs' ys c numbered) ⟩
      insert_result place (task_places xs')
    ≡⟨ insert-first place (task_places xs') (places-below x xs' below) ⟩ task_places (x ∷ xs') ∎

All-weaken : (P Q : Task → Type 0) (ts : List Task) → ((t : Task) → P t → Q t) → All P ts → All Q ts
All-weaken P Q [] f h = tt
All-weaken P Q (t ∷ ts) f h = (f t h.0, All-weaken P Q ts f h.1)

all_members : (ts : List Task) → All (λ t. Memᴰ t ts) ts
all_members [] = tt
all_members (t ∷ ts) = (
  Memᴰ.head refl,
  All-weaken (λ u. Memᴰ u ts) (λ u. Memᴰ u (t ∷ ts)) ts (λ u m. Memᴰ.tail m) (all_members ts),
)

module _ (host : Host) (wire : Wire) where
  -- A result is what one of the tasks, that of its place, has been answered in some state.
  abbrev pub IsAnswer : List Task → ℕ × Option JsonRpcResponse → Type 0
  IsAnswer tasks r =
      (t : Task) × Memᴰ t tasks
      × (t.index ≡ r.0)
      × (s : Server) × ((handle_item host wire t.around t.item s).1 ≡ r.1)

  run_tasks-places :
      (ts : List Task) (s : Server) → places (run_tasks host wire ts s).1 ≡ task_places ts
  unfolding run_tasks
  run_tasks-places [] s = refl
  run_tasks-places (t ∷ ts) s =
      ap (λ r. (t.index, tt) ∷ r) (run_tasks-places ts (handle_item host wire t.around t.item s).0)

  run_tasks-answers :
      (tasks ts : List Task) (s : Server)
      → All (λ t. Memᴰ t tasks) ts
      → All (IsAnswer tasks) (run_tasks host wire ts s).1
  unfolding run_tasks
  run_tasks-answers tasks [] s h = tt
  run_tasks-answers tasks (t ∷ ts) s h = (
    (t, h.0, refl, s, refl),
    run_tasks-answers tasks ts (handle_item host wire t.around t.item s).0 h.1,
  )

  -- In whatever order the numbered items of a batch are completed, the sorted results stand at the
  -- places of the items, in their order, and each is the answer to the item of its place.
  pub batch_in_order :
      (tasks completed : List Task) (s : Server)
      → Completes tasks completed
      → AreNumbered tasks
      → (places (sort_by_index (run_tasks host wire completed s).1) ≡ task_places tasks)
        × All (IsAnswer tasks) (sort_by_index (run_tasks host wire completed s).1)
  batch_in_order tasks completed s c numbered =
      let results = (run_tasks host wire completed s).1 in
      (
        places-sort results
            ∙ ap sort_by_index (run_tasks-places completed s)
            ∙ sort-Completes tasks completed c numbered,
        All-sort (IsAnswer tasks) results (
            run_tasks-answers tasks completed s
              (Completes-All (λ t. Memᴰ t tasks) tasks completed c (all_members tasks))),
      )
