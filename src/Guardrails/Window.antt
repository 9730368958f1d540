-- ===== src/Guardrails/Window.antt =====
-- The rate limit of src/guardrails.rs over a whole session.
use intermcp.Prelude.{
  ◌+◌, length-append, length-retain, All, ==_refl, ℕ, ◌≤◌, ◌≡◌, refl, Text, true, List, [], ◌∷◌,
  ◌++◌, arith, leb, ==_iff, text_is_eq, if◌then◌else◌, lookup, length, ◌&&◌, false, Bool, ◌==◌,
  lookup-insert, Bool-cases, inl, inr, HasDistinctKeys,
}
use native.Mathlib.Nat.{le_refl}
use mathlib.Core.Path.{subst}
use mathlib.Core.Bool.{and-true, and-false}
use intermcp.Error.{is_ok, Result, FastMcpError}
use intermcp.Guardrails.{GuardrailPolicy, live, or_default, seen, check_call, new}
use intermcp.Guardrails.History.{
  live-append, live-live, times, recorded, history-check_call, live-seen,
  check_call-HasDistinctKeys,
}

pub record Call : Type 0 where
  pub time : ℕ
  pub tool : Text
  pub arg_hash : Text

abbrev pub call : Call → GuardrailPolicy → GuardrailPolicy × Result (Unit {0}) FastMcpError
call c p = check_call c.time c.tool c.arg_hash p

-- The times of the calls of a tool that a session accepts.
unfoldable pub accepted : Text → List Call → GuardrailPolicy → List ℕ
accepted tool [] p = []
accepted tool (c ∷ cs) p =
    let rest = accepted tool cs (call c p).0 in
    if is_ok (call c p).1 && c.tool == tool then c.time ∷ rest else rest

max-check_call :
    (now : ℕ) (tool arg_hash : Text) (p : GuardrailPolicy)
    → (check_call now tool arg_hash p).0.max_calls_per_minute ≡ p.max_calls_per_minute
unfolding check_call
max-check_call now tool arg_hash p = ground arith

-- An accepted call had fewer live timestamps than the limit.
room_of_ok :
    (now : ℕ) (tool arg_hash : Text) (p : GuardrailPolicy)
    → is_ok (check_call now tool arg_hash p).1 ≡ true
    → leb p.max_calls_per_minute (length (live now (or_default (lookup tool (seen now tool p)))))
      ≡ false
unfolding check_call
room_of_ok now tool arg_hash p h = ground arith

abbrev live_count : ℕ → Text → GuardrailPolicy → ℕ
live_count now tool p = length (live now (times tool p))

-- What a call of its own tool leaves, and how much it adds to the window.
module _ (now : ℕ) (c : Call) (p : GuardrailPolicy) (d : HasDistinctKeys p.history)
    (le : c.time ≤ now) where
  own_times :
      times c.tool (call c p).0
      ≡ recorded p.max_calls_per_minute c.time (live c.time (times c.tool p))
  own_times = rw (
    history-check_call,
    lookup-insert,
    ==_refl c.tool,
    live-seen c.time c.time c.tool c.tool p (le_refl c.time) d,
  )

  other_times :
      (tool : Text)
      → (c.tool == tool) ≡ false
      → live now (times tool (call c p).0) ≡ live now (times tool p)
  other_times tool other =
      rw (history-check_call, lookup-insert, other) (live-seen now c.time c.tool tool p le d)

  own_room :
      is_ok (call c p).1 ≡ true
      → leb p.max_calls_per_minute (length (live c.time (times c.tool p))) ≡ false
  own_room good =
      rw (live-seen c.time c.time c.tool c.tool p (le_refl c.time) d) at
        (room_of_ok c.time c.tool c.arg_hash p good)

-- Recording at `before` keeps the window of a later `now` within the limit, and adds `before` to it
-- if there was room.
module _ (now before limit : ℕ) (ts : List ℕ) (le : before ≤ now) where
  live_recorded :
      length (live now (live before ts ++ before ∷ []))
      ≡ length (live now ts) + length (live now (before ∷ []))
  live_recorded =
      rw (live-append, live-live now before ts le)
        (length-append (live now ts) (live now (before ∷ [])))

  live_shrinks : length (live now ts) ≤ length (live before ts)
  live_shrinks = rw (← live-live now before ts le) (unfold live in length-retain _ (live before ts))

  live_one : length (live now (before ∷ [])) ≤ 1
  unfolding live
  live_one = ground arith

  recorded_within :
      length (live now ts) ≤ limit
      → length (live now (recorded limit before (live before ts))) ≤ limit
  recorded_within h =
      ground (arith, live_recorded, live-live now before ts le, live_shrinks, live_one)

  recorded_grows : length (live now ts) ≤ length (live now (recorded limit before (live before ts)))
  recorded_grows = ground (arith, live_recorded, live-live now before ts le)

  recorded_adds :
      leb limit (length (live before ts)) ≡ false
      → length (live now (recorded limit before (live before ts)))
        ≡ length (live now (before ∷ [])) + length (live now ts)
  recorded_adds room = ground (arith, live_recorded)

-- One call keeps the window within the limit, and an accepted call of the tool takes one place.
module _ (now : ℕ) (tool : Text) (c : Call) (p : GuardrailPolicy) (d : HasDistinctKeys p.history)
    (le : c.time ≤ now) where
  abbrev taken : ℕ
  taken = if is_ok (call c p).1 && c.tool == tool then length (live now (c.time ∷ [])) else 0

  call_within :
      live_count now tool p ≤ p.max_calls_per_minute
      → live_count now tool (call c p).0 ≤ p.max_calls_per_minute
  call_within h = elim (Bool-cases (c.tool == tool)) [
    | inl same ↦
        let e = (==_iff c.tool tool).0 same in
        subst
          (λ t.
            live_count now t p ≤ p.max_calls_per_minute
            → live_count now t (call c p).0 ≤ p.max_calls_per_minute)
          e
          (λ g.
            rw (own_times now c p d le)
              (recorded_within now c.time p.max_calls_per_minute (times c.tool p) le g))
          h
    | inr other ↦ rw (other_times now c p d le tool other) h
  ]

  own_grows : live_count now c.tool p ≤ live_count now c.tool (call c p).0
  own_grows =
      rw (own_times now c p d le)
        (recorded_grows now c.time p.max_calls_per_minute (times c.tool p) le)

  own_adds :
      is_ok (call c p).1 ≡ true
      → live_count now c.tool (call c p).0
        ≡ length (live now (c.time ∷ [])) + live_count now c.tool p
  own_adds good = rw (own_times now c p d le) (
      recorded_adds now c.time p.max_calls_per_minute (times c.tool p) le
        (own_room now c p d le good))

  own_takes :
      (b : Bool)
      → is_ok (call c p).1 ≡ b
      → (if b then length (live now (c.time ∷ [])) else 0) + live_count now c.tool p
        ≤ live_count now c.tool (call c p).0
  own_takes true h = omega (arith, own_adds h)
  own_takes false h = omega (arith, own_grows)

  call_takes : taken + live_count now tool p ≤ live_count now tool (call c p).0
  call_takes = elim (Bool-cases (c.tool == tool)) [
    | inl same ↦
        rw (same, and-true)
          (subst
            (λ t.
              (if is_ok (call c p).1 then length (live now (c.time ∷ [])) else 0)
                + live_count now t p
              ≤ live_count now t (call c p).0)
            ((==_iff c.tool tool).0 same) (own_takes (is_ok (call c p).1) refl))
    | inr other ↦ rw (other, and-false) (rw (other_times now c p d le tool other) (omega arith))
  ]

-- Every call of a session comes no later than `now`.
abbrev pub AreBefore : ℕ → List Call → Type 0
AreBefore now cs = All (λ c. c.time ≤ now) cs

live_cons :
    (now t : ℕ) (ts : List ℕ)
    → length (live now (t ∷ ts)) ≡ length (live now (t ∷ [])) + length (live now ts)
unfolding live
live_cons now t ts = ground arith

accepted_bound :
    (now : ℕ) (tool : Text) (cs : List Call) (p : GuardrailPolicy)
    → HasDistinctKeys p.history
    → AreBefore now cs
    → live_count now tool p ≤ p.max_calls_per_minute
    → length (live now (accepted tool cs p)) + live_count now tool p ≤ p.max_calls_per_minute
unfolding accepted
accepted_bound now tool [] p d b h = (unfold live in omega arith)
accepted_bound now tool (c ∷ cs) p d (le, b) h =
    let p' = (call c p).0 in
    ground (
      arith,
      live_cons now c.time (accepted tool cs p'),
      call_takes now tool c p d le,
      max-check_call c.time c.tool c.arg_hash p,
      accepted_bound now tool cs p' (check_call-HasDistinctKeys c.time c.tool c.arg_hash p d) b
          (rw max-check_call (call_within now tool c p d le h)),
    )

-- Under a limit of `limit` calls a minute, whatever a session calls, at any instant `now` that no
-- call comes after, at most `limit` calls of a tool that the guardrail accepted lie in the minute
-- before `now`.
pub accepted-le-limit :
    (limit threshold now : ℕ) (tool : Text) (cs : List Call)
    → AreBefore now cs
    → length (live now (accepted tool cs (new limit threshold))) ≤ limit
unfolding new
accepted-le-limit limit threshold now tool cs b =
    let bound =
      accepted_bound now tool cs (new limit threshold) tt b (unfold lookup live in omega arith) in
    omega (arith, bound)
