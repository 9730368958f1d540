-- ===== src/Guardrails/History.antt =====
-- The timestamps of the calls of a tool in src/guardrails.rs, and how the pruning leaves them.
use intermcp.Prelude.{
  ℕ, ◌≤◌, ◌≡◌, refl, Text, true, none, List, [], ◌∷◌, ◌++◌, arith, leb, ==_iff, text_is_eq,
  if◌then◌else◌, HashMap, lookup, insert, length, is_empty, eqb, ◌%◌, insert-HasDistinctKeys,
  Bool-cases, inl, inr, HasDistinctKeys,
}
use intermcp.Guardrails.{GuardrailPolicy, live, prune, or_default, seen, check_call, new}

pub live-append : (now : ℕ) (xs ys : List ℕ) → live now (xs ++ ys) ≡ live now xs ++ live now ys
unfolding live
live-append now [] ys = refl
live-append now (x ∷ xs) ys = ground (arith, live-append now xs ys)

-- What was old stays old.
pub live-live :
    (now before : ℕ) (xs : List ℕ) → before ≤ now → live now (live before xs) ≡ live now xs
unfolding live
live-live now before [] h = refl
live-live now before (x ∷ xs) h = ground (arith, live-live now before xs h)

absent_stays :
    (now : ℕ) (k : Text) (h : HashMap Text (List ℕ))
    → lookup k h ≡ none
    → lookup k (prune now h) ≡ none
unfolding prune lookup
absent_stays now k [] q = refl
absent_stays now k ((j, ts) ∷ h) q = ground (arith, absent_stays now k h)

prune-HasDistinctKeys :
    (now : ℕ) (h : HashMap Text (List ℕ)) → HasDistinctKeys h → HasDistinctKeys (prune now h)
unfolding prune
prune-HasDistinctKeys now [] d = tt
prune-HasDistinctKeys now ((k, ts) ∷ h) (new, d) =
    let ih = prune-HasDistinctKeys now h d in
    elim (Bool-cases (is_empty (live now ts))) [
      | inl gone ↦ rw gone ih
      | inr kept ↦ rw kept (absent_stays now k h new, ih)
    ]

is_empty-eq : (ts : List ℕ) → is_empty ts ≡ true → ts ≡ []
is_empty-eq [] h = refl
is_empty-eq (t ∷ ts) h = cc

-- A tool's live timestamps do not depend on whether the map has been pruned.
lookup-prune :
    (now : ℕ) (k : Text) (h : HashMap Text (List ℕ))
    → HasDistinctKeys h
    → or_default (lookup k (prune now h)) ≡ live now (or_default (lookup k h))
unfolding prune lookup
lookup-prune now k [] d = refl
lookup-prune now k ((j, ts) ∷ h) (new, d) =
    ground
      (arith, ==_iff j k, absent_stays now k h, is_empty-eq (live now ts), lookup-prune now k h d)

abbrev pub times : Text → GuardrailPolicy → List ℕ
times tool p = or_default (lookup tool p.history)

-- What `check_call` writes to the timestamps of a tool.
abbrev pub recorded : ℕ → ℕ → List ℕ → List ℕ
recorded limit now ts = if leb limit (length ts) then ts else ts ++ now ∷ []

pub history-check_call :
    (now : ℕ) (tool arg_hash : Text) (p : GuardrailPolicy)
    → (check_call now tool arg_hash p).0.history
      ≡ insert tool
          (recorded p.max_calls_per_minute now
            (live now (or_default (lookup tool (seen now tool p)))))
          (seen now tool p)
unfolding check_call
history-check_call now tool arg_hash p = ground arith

seen-HasDistinctKeys :
    (now : ℕ) (tool : Text) (p : GuardrailPolicy)
    → HasDistinctKeys p.history
    → HasDistinctKeys (seen now tool p)
unfolding seen
seen-HasDistinctKeys now tool p d = elim (Bool-cases (eqb (p.prune_counter % 100) 0)) [
  | inl due ↦ rw due (prune-HasDistinctKeys now p.history d)
  | inr not_due ↦ rw not_due d
]

-- Pruning does not show through `live`, now or later.
pub live-seen :
    (later now : ℕ) (tool other : Text) (p : GuardrailPolicy)
    → now ≤ later
    → HasDistinctKeys p.history
    → live later (or_default (lookup other (seen now tool p))) ≡ live later (times other p)
unfolding seen
live-seen later now tool other p le d = elim (Bool-cases (eqb (p.prune_counter % 100) 0)) [
  | inl due ↦ rw (due, lookup-prune now other p.history d) (live-live later now (times other p) le)
  | inr not_due ↦ rw not_due
]

pub check_call-HasDistinctKeys :
    (now : ℕ) (tool arg_hash : Text) (p : GuardrailPolicy)
    → HasDistinctKeys p.history
    → HasDistinctKeys (check_call now tool arg_hash p).0.history
check_call-HasDistinctKeys now tool arg_hash p d =
    rw history-check_call (insert-HasDistinctKeys _ _ _ (seen-HasDistinctKeys now tool p d))
