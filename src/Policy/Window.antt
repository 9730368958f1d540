-- ===== src/Policy/Window.antt =====
-- The sliding window of `check_rate_limit` (src/policy.rs) over a sequence of calls.
use intermcp.Prelude.{
  insert, ap, ℕ, ◌+◌, ◌-◌, ◌/◌, ◌^◌, ◌≤◌, ◌<◌, ◌≡◌, refl, Text, Bool, true, false, ◌&&◌, List, [],
  ◌∷◌, ◌++◌, arith, ltb, leb, ◌==◌, ==_iff, ==_refl, text_is_eq, if◌then◌else◌, lookup,
  lookup-insert, retain, length, length-retain, Bool-cases, inl, inr, All,
}
use mathlib.Core.Path.{subst}
use mathlib.Core.Bool.{and-true, and-false}
use intermcp.Error.{is_ok}
use intermcp.Policy.Engine.{
  PolicyEngine, DeclarativePolicy, evict, or_default, check_rate_limit, new, is_enforcing,
  enforcing,
}

-- The timestamps that are less than 60 whole seconds old.
pub live : ℕ → List ℕ → List ℕ
live now ts = retain (λ t. ltb ((now - t) / 10 ^ 9) 60) ts

live-append :
    (now : ℕ) (xs ys : List ℕ)
    → length (live now (xs ++ ys)) ≡ length (live now xs) + length (live now ys)
unfolding live
live-append now [] ys = omega arith
live-append now (x ∷ xs) ys = ground (arith, live-append now xs ys)

-- Eviction drops nothing that is live, then or later.
live-evict :
    (now before : ℕ) (ts : List ℕ)
    → before ≤ now
    → length (live now (evict before ts)) ≡ length (live now ts)
unfolding live evict
live-evict now before [] h = refl
live-evict now before (t ∷ ts) h = ground (arith, live-evict now before ts h)

live-le : (now : ℕ) (ts : List ℕ) → length (live now ts) ≤ length ts
unfolding live
live-le now ts = length-retain _ ts

abbrev times : Text → PolicyEngine → List ℕ
times tool e = or_default (lookup tool e.rate_limits)

abbrev next : ℕ → Text → PolicyEngine → PolicyEngine
next now tool e = (check_rate_limit now tool e).0

abbrev limit : PolicyEngine → ℕ
limit e = e.policy.limits.max_calls_per_minute

policy-check_rate_limit :
    (now : ℕ) (tool : Text) (e : PolicyEngine) → (next now tool e).policy ≡ e.policy
unfolding check_rate_limit
policy-check_rate_limit now tool e = ground arith

module _ (now before : ℕ) (tool : Text) (e : PolicyEngine) (le : before ≤ now)
    (pos : 0 < limit e) where
  abbrev count : ℕ
  count = length (live now (times tool e))

  abbrev count_next : ℕ
  count_next = length (live now (times tool (next before tool e)))

  -- What a call leaves as the timestamps of its tool.
  abbrev recorded : List ℕ
  recorded =
      let ts = evict before (times tool e) in
      if leb (limit e) (length ts) then ts else ts ++ before ∷ []

  own_rate_limits : (next before tool e).rate_limits ≡ insert tool recorded e.rate_limits
  unfolding check_rate_limit
  own_rate_limits = ground arith

  own_times : times tool (next before tool e) ≡ recorded
  own_times = rw (own_rate_limits, lookup-insert, ==_refl tool)

  other_times :
      (other : Text) → (tool == other) ≡ false → times other (next before tool e) ≡ times other e
  other_times other d = rw (own_rate_limits, lookup-insert, d)

  kept : length (live now (evict before (times tool e))) ≡ count
  kept = live-evict now before (times tool e) le

  pushed :
      length (live now (evict before (times tool e) ++ before ∷ []))
      ≡ count + length (live now (before ∷ []))
  pushed = omega (arith, live-append now (evict before (times tool e)) (before ∷ []), kept)

  one : length (live now (before ∷ [])) ≤ 1
  one = live-le now (before ∷ [])

  own_within : count ≤ limit e → count_next ≤ limit e
  own_within h =
      rw own_times (ground (arith, kept, pushed, one, live-le now (evict before (times tool e))))

  own_accepted :
      is_enforcing e.policy.mode ≡ true
      → is_ok (check_rate_limit before tool e).1 ≡ true
      → leb (limit e) (length (evict before (times tool e))) ≡ false
  unfolding check_rate_limit
  own_accepted enf h = ground arith

  own_takes :
      (b : Bool)
      → is_enforcing e.policy.mode ≡ true
      → is_ok (check_rate_limit before tool e).1 ≡ b
      → (if b then length (live now (before ∷ [])) else 0) + count ≤ count_next
  own_takes true enf h = rw own_times (ground (arith, own_accepted enf h, pushed))
  own_takes false enf h = rw own_times (ground (arith, kept, pushed))

-- A call: its time and its tool.
abbrev pub Call : Type 0
Call = ℕ × Text

-- The times of the calls of a tool that the engine lets through.
pub accepted : Text → List Call → PolicyEngine → List ℕ
accepted tool [] e = []
accepted tool ((t, name) ∷ cs) e =
    let rest = accepted tool cs (next t name e) in
    if is_ok (check_rate_limit t name e).1 && name == tool then t ∷ rest else rest

abbrev pub AreBefore : ℕ → List Call → Type 0
AreBefore now cs = All (λ c. c.0 ≤ now) cs

live_cons :
    (now t : ℕ) (ts : List ℕ)
    → length (live now (t ∷ ts)) ≡ length (live now (t ∷ [])) + length (live now ts)
unfolding live
live_cons now t ts = ground arith

module _ (now t : ℕ) (name tool : Text) (e : PolicyEngine) (le : t ≤ now) (pos : 0 < limit e) where
  abbrev counted : Text → PolicyEngine → ℕ
  counted k e' = length (live now (times k e'))

  call_within : counted tool e ≤ limit e → counted tool (next t name e) ≤ limit e
  call_within h = elim (Bool-cases (name == tool)) [
    | inl same ↦
        subst (λ k. counted k e ≤ limit e → counted k (next t name e) ≤ limit e)
          ((==_iff name tool).0 same) (own_within now t name e le pos) h
    | inr other ↦ rw (other_times now t name e le pos tool other) h
  ]

  call_takes :
      is_enforcing e.policy.mode ≡ true
      → (if is_ok (check_rate_limit t name e).1 && name == tool
            then length (live now (t ∷ []))
            else 0)
          + counted tool e
        ≤ counted tool (next t name e)
  call_takes enf = elim (Bool-cases (name == tool)) [
    | inl same ↦
        rw (same, and-true)
          (subst
            (λ k.
              (if is_ok (check_rate_limit t name e).1 then length (live now (t ∷ [])) else 0)
                + counted k e
              ≤ counted k (next t name e))
            ((==_iff name tool).0 same)
            (own_takes now t name e le pos (is_ok (check_rate_limit t name e).1) enf refl))
    | inr other ↦
        rw (other, and-false) (rw (other_times now t name e le pos tool other) (omega arith))
  ]

accepted_bound :
    (now : ℕ) (tool : Text) (cs : List Call) (e : PolicyEngine)
    → is_enforcing e.policy.mode ≡ true
    → 0 < limit e
    → AreBefore now cs
    → length (live now (times tool e)) ≤ limit e
    → length (live now (accepted tool cs e)) + length (live now (times tool e)) ≤ limit e
unfolding accepted
accepted_bound now tool [] e enf pos b h = (unfold live in omega arith)
accepted_bound now tool ((t, name) ∷ cs) e enf pos (le, b) h =
    let e' = next t name e in
    let same = policy-check_rate_limit t name e in
    let limit_same = ap (λ (q : DeclarativePolicy). q.limits.max_calls_per_minute) same in
    let within = call_within now t name tool e le pos h in
    ground (
      arith,
      live_cons now t (accepted tool cs e'),
      call_takes now t name tool e le pos enf,
      limit_same,
      accepted_bound now tool cs e' (rw same enf) (omega (arith, limit_same)) b
          (omega (arith, limit_same, within)),
    )

-- Under an enforced limit that is not zero, whatever calls come, at any instant `now` that none of
-- them comes after, at most `max_calls_per_minute` calls of a tool that the engine let through are
-- less than 60 seconds old.
pub accepted-le-max_calls :
    (policy : DeclarativePolicy) (now : ℕ) (tool : Text) (cs : List Call)
    → policy.mode ≡ enforcing
    → 0 < policy.limits.max_calls_per_minute
    → AreBefore now cs
    → length (live now (accepted tool cs (new policy))) ≤ policy.limits.max_calls_per_minute
unfolding new
accepted-le-max_calls policy now tool cs mode pos b =
    let bound =
      accepted_bound now tool cs (new policy) (ap is_enforcing mode) pos b
        (unfold lookup live in omega arith) in
    omega (arith, bound)
