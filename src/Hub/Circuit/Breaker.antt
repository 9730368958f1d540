-- ===== src/Hub/Circuit/Breaker.antt =====
-- The circuit breaker of src/hub.rs as a state machine: its invariant, when it opens, when it
-- admits a probe, and how it can stay half open.
use intermcp.Prelude.{
  ℕ, ◌-◌, ◌≤◌, ◌<◌, ◌≡◌, refl, Text, List, [], ◌∷◌, ◌++◌, arith, ltb, is_some, add_u32, add_u32-eq,
  ◌∙◌, some, ap,
}
use intermcp.Error.{Result, ok, err, FastMcpError, tool_execution, circuit_open, circuit_half_open}
use intermcp.Hub.Circuit.{
  CircuitState, closed, open_since, half_open, CircuitBreakerState, initial, open_time, admit,
  record_error, Event, request, success, failure, dropped, step, run,
}

-- Closed, the breaker holds fewer than three errors, and a first error time exactly when it holds
-- one; otherwise it holds three errors.
abbrev pub IsConsistent : CircuitBreakerState → CircuitState → Type 0
IsConsistent cb closed =
    (cb.consecutive_errors < 3) × (is_some cb.first_error_time ≡ ltb 0 cb.consecutive_errors)
IsConsistent cb (open_since t) = cb.consecutive_errors ≡ 3
IsConsistent cb half_open = cb.consecutive_errors ≡ 3

abbrev pub IsValid : CircuitBreakerState → Type 0
IsValid cb = IsConsistent cb cb.state

pub IsValid-initial : IsValid initial
IsValid-initial = (omega arith, refl)

admit-IsValid :
    (name : Text) (now : ℕ) (cb : CircuitBreakerState) → IsValid cb → IsValid (admit name now cb).0
unfolding admit
admit-IsValid name now cb v = ground arith

record_error-IsValid :
    (now : ℕ) (cb : CircuitBreakerState) → IsValid cb → IsValid (record_error now cb)
unfolding record_error
record_error-IsValid now cb v = ground (arith, add_u32-eq cb.consecutive_errors 1)

pub step-IsValid :
    (name : Text) (e : Event) (cb : CircuitBreakerState) → IsValid cb → IsValid (step name e cb)
unfolding step
step-IsValid name (request now) cb v = admit-IsValid name now cb v
step-IsValid name success cb v = IsValid-initial
step-IsValid name (failure now) cb v = record_error-IsValid now cb v
step-IsValid name dropped cb v = v

run-IsValid_from :
    (name : Text) (es : List Event) (cb : CircuitBreakerState)
    → IsValid cb
    → IsValid (run name es cb)
unfolding run
run-IsValid_from name [] cb v = v
run-IsValid_from name (e ∷ es) cb v =
    run-IsValid_from name es (step name e cb) (step-IsValid name e cb v)

-- From a new breaker, whatever requests, replies, failures and dropped futures follow, the closed
-- breaker holds fewer than three errors and a first error time exactly when it holds an error, and
-- the open or half-open breaker holds exactly three.
pub run-IsValid : (name : Text) (es : List Event) → IsValid (run name es initial)
run-IsValid name es = run-IsValid_from name es initial IsValid-initial

-- The events that are no reply: requests and dropped futures.
abbrev pub NoReply : List Event → Type 0
NoReply [] = Unit
NoReply (request _ ∷ es) = NoReply es
NoReply (dropped ∷ es) = NoReply es
NoReply (_ ∷ es) = ⊥

run-append :
    (name : Text) (es fs : List Event) (cb : CircuitBreakerState)
    → run name (es ++ fs) cb ≡ run name fs (run name es cb)
unfolding run
run-append name [] fs cb = refl
run-append name (e ∷ es) fs cb = run-append name es fs (step name e cb)

closed_stays :
    (name : Text) (es : List Event) (cb : CircuitBreakerState)
    → NoReply es
    → cb.state ≡ closed
    → run name es cb ≡ cb
unfolding run step admit
closed_stays name [] cb q c = refl
closed_stays name (request t ∷ es) cb q c = ground (arith, closed_stays name es cb)
closed_stays name (dropped ∷ es) cb q c = closed_stays name es cb q c
closed_stays name (success ∷ es) cb q c = absurd q
closed_stays name (failure t ∷ es) cb q c = absurd q

half_open_stays :
    (name : Text) (es : List Event) (cb : CircuitBreakerState)
    → NoReply es
    → cb.state ≡ half_open
    → run name es cb ≡ cb
unfolding run step admit
half_open_stays name [] cb q c = refl
half_open_stays name (request t ∷ es) cb q c = ground (arith, half_open_stays name es cb)
half_open_stays name (dropped ∷ es) cb q c = half_open_stays name es cb q c
half_open_stays name (success ∷ es) cb q c = absurd q
half_open_stays name (failure t ∷ es) cb q c = absurd q

-- The breaker after three failures.
abbrev pub opened : ℕ → ℕ → CircuitBreakerState
opened first last = record {
  state = open_since last;
  consecutive_errors = 3;
  first_error_time = some first;
}

-- The breaker after one failure, and after two.
abbrev errors : ℕ → ℕ → CircuitBreakerState
errors n first = record { state = closed; consecutive_errors = n; first_error_time = some first }

one_error : (t1 : ℕ) → record_error t1 initial ≡ errors 1 t1
unfolding record_error
one_error t1 = ground arith

two_errors : (t1 t2 : ℕ) → t2 - t1 ≤ open_time → record_error t2 (errors 1 t1) ≡ errors 2 t1
unfolding record_error add_u32
two_errors t1 t2 p = ground arith

three_errors : (t1 t3 : ℕ) → t3 - t1 ≤ open_time → record_error t3 (errors 2 t1) ≡ opened t1 t3
unfolding record_error add_u32
three_errors t1 t3 p = ground arith

-- The next failure after events that are no reply, from a closed breaker.
run-failure :
    (name : Text) (es fs : List Event) (t : ℕ) (cb : CircuitBreakerState)
    → NoReply es
    → cb.state ≡ closed
    → run name (es ++ failure t ∷ fs) cb ≡ run name fs (record_error t cb)
unfolding step
run-failure name es fs t cb q c =
    run-append name es (failure t ∷ fs) cb
    ∙ ap (run name (failure t ∷ fs)) (closed_stays name es cb q c)
    ∙ (unfold run in refl)

-- A new breaker opens at its third failure, if the second and third come at most 30 s after the
-- first, whatever requests and dropped futures come before and between.
pub run-three_failures :
    (name : Text) (es fs gs : List Event) (t1 t2 t3 : ℕ)
    → NoReply es
    → NoReply fs
    → NoReply gs
    → t2 - t1 ≤ open_time
    → t3 - t1 ≤ open_time
    → run name (es ++ failure t1 ∷ (fs ++ failure t2 ∷ (gs ++ failure t3 ∷ []))) initial
      ≡ opened t1 t3
run-three_failures name es fs gs t1 t2 t3 qe qf qg p q =
    run-failure name es _ t1 initial qe refl
    ∙ ap (run name (fs ++ failure t2 ∷ (gs ++ failure t3 ∷ []))) (one_error t1)
    ∙ run-failure name fs _ t2 (errors 1 t1) qf refl
    ∙ ap (run name (gs ++ failure t3 ∷ [])) (two_errors t1 t2 p)
    ∙ run-failure name gs [] t3 (errors 2 t1) qg refl
    ∙ (unfold run in three_errors t1 t3 q)

-- Requests that come less than 30 s after the opening.
abbrev pub AreEarly : ℕ → List ℕ → Type 0
AreEarly opened_at [] = Unit
AreEarly opened_at (now ∷ ts) = (now - opened_at < open_time) × AreEarly opened_at ts

abbrev pub requests : List ℕ → List Event
requests [] = []
requests (t ∷ ts) = request t ∷ requests ts

early_refused :
    (name : Text) (cb : CircuitBreakerState) (opened_at now : ℕ)
    → cb.state ≡ open_since opened_at
    → now - opened_at < open_time
    → admit name now cb ≡ (cb, err (tool_execution (circuit_open name)))
unfolding admit
early_refused name cb opened_at now h e = ground arith

late_admitted :
    (name : Text) (cb : CircuitBreakerState) (opened_at now : ℕ)
    → cb.state ≡ open_since opened_at
    → open_time ≤ now - opened_at
    → admit name now cb ≡ (record cb { state = half_open }, ok tt)
unfolding admit
late_admitted name cb opened_at now h e = ground arith

early_stays :
    (name : Text) (cb : CircuitBreakerState) (opened_at : ℕ) (ts : List ℕ)
    → cb.state ≡ open_since opened_at
    → AreEarly opened_at ts
    → run name (requests ts) cb ≡ cb
unfolding run step
early_stays name cb opened_at [] h e = refl
early_stays name cb opened_at (t ∷ ts) h e =
    ground (arith, early_refused name cb opened_at t h e.0, early_stays name cb opened_at ts h e.1)

half_open_refused :
    (name : Text) (cb : CircuitBreakerState) (now : ℕ)
    → cb.state ≡ half_open
    → admit name now cb ≡ (cb, err (tool_execution (circuit_half_open name)))
unfolding admit
half_open_refused name cb now h = ground arith

after_request :
    (name : Text) (now : ℕ) (es : List Event) (cb : CircuitBreakerState)
    → run name (request now ∷ es) cb ≡ run name es (admit name now cb).0
unfolding run step
after_request name now es cb = refl

-- An open breaker is not changed by any number of requests that come less than 30 s after its
-- opening; the first later request is admitted as the probe; and every further request, until a
-- reply is recorded, is refused and leaves the breaker half open.
pub open_then_probe :
    (name : Text) (cb : CircuitBreakerState) (opened_at : ℕ) (ts : List ℕ) (now later : ℕ)
    (es : List Event)
    → cb.state ≡ open_since opened_at
    → AreEarly opened_at ts
    → open_time ≤ now - opened_at
    → NoReply es
    → (run name (requests ts) cb ≡ cb)
      × (admit name now cb ≡ (record cb { state = half_open }, ok tt))
      × (admit name later (run name (request now ∷ es) cb)
          ≡ (record cb { state = half_open }, err (tool_execution (circuit_half_open name))))
open_then_probe name cb opened_at ts now later es h early late q =
    let probe = late_admitted name cb opened_at now h late in
    let probing : CircuitBreakerState = record cb { state = half_open } in
    (
      early_stays name cb opened_at ts h early,
      probe,
      ap (admit name later) (
            after_request name now es cb
            ∙ ap (λ (r : CircuitBreakerState × Result (Unit {0}) FastMcpError). run name es r.0)
                probe
            ∙ half_open_stays name es probing q refl)
          ∙ half_open_refused name probing later refl,
    )
