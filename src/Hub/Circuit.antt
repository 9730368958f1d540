-- ===== src/Hub/Circuit.antt =====
-- src/hub.rs: the circuit breaker of an upstream. `send_request` is cut at its waits: `admit` is
-- its first block, `record_success` and `record_error` follow the reply. Instants are nanoseconds.
pub mod Breaker
use intermcp.Prelude.{
  ℕ, ◌+◌, ◌-◌, ◌*◌, ◌^◌, Text, List, [], ◌∷◌, Option, none, some, ltb, leb, add_u32, if◌then◌else◌,
}
use intermcp.Error.{Result, ok, err, FastMcpError, tool_execution, circuit_open, circuit_half_open}

-- `Duration::from_secs(30)`.
abbrev pub open_time : ℕ
open_time = 30 * 10 ^ 9

pub data CircuitState : Type 0 where
  closed : CircuitState
  open_since : ℕ → CircuitState
  half_open : CircuitState

pub record CircuitBreakerState : Type 0 where
  pub state : CircuitState
  pub consecutive_errors : ℕ
  pub first_error_time : Option ℕ

abbrev pub initial : CircuitBreakerState
initial = record { state = closed; consecutive_errors = 0; first_error_time = none }

admit_in :
    Text
    → ℕ
    → CircuitBreakerState
    → CircuitState
    → CircuitBreakerState × Result (Unit {0}) FastMcpError
admit_in name now cb closed = (cb, ok tt)
admit_in name now cb (open_since opened_at) =
    if ltb (now - opened_at) open_time
    then (cb, err (tool_execution (circuit_open name)))
    else (record cb { state = half_open }, ok tt)
admit_in name now cb half_open = (cb, err (tool_execution (circuit_half_open name)))

-- The test under the lock at the head of `send_request`.
unfoldable pub admit :
    Text → ℕ → CircuitBreakerState → CircuitBreakerState × Result (Unit {0}) FastMcpError
unfolding admit_in
admit name now cb = admit_in name now cb cb.state

unfoldable pub record_success : CircuitBreakerState → CircuitBreakerState
record_success cb = initial

-- The count of an error while closed.
count_error : ℕ → CircuitBreakerState → Option ℕ → CircuitBreakerState
count_error now cb (some first) =
    if ltb open_time (now - first)
    then record cb { consecutive_errors = 1; first_error_time = some now }
    else record cb { consecutive_errors = add_u32 cb.consecutive_errors 1 }
count_error now cb none = record cb { consecutive_errors = 1; first_error_time = some now }

trip : ℕ → CircuitBreakerState → CircuitBreakerState
trip now cb = if leb 3 cb.consecutive_errors then record cb { state = open_since now } else cb

record_error_in : ℕ → CircuitBreakerState → CircuitState → CircuitBreakerState
record_error_in now cb half_open = record {
  state = open_since now;
  consecutive_errors = 3;
  first_error_time = some now;
}
record_error_in now cb closed = trip now (count_error now cb cb.first_error_time)
record_error_in now cb (open_since _) = cb

unfoldable pub record_error : ℕ → CircuitBreakerState → CircuitBreakerState
unfolding record_error_in count_error trip
record_error now cb = record_error_in now cb cb.state

-- What can happen to the breaker. A request is admitted or refused; its reply is recorded; or its
-- future is dropped before either record, as `call_tool` does when its own timeout elapses first.
pub data Event : Type 0 where
  request : ℕ → Event
  success : Event
  failure : ℕ → Event
  dropped : Event

unfoldable pub step : Text → Event → CircuitBreakerState → CircuitBreakerState
unfolding admit record_success record_error
step name (request now) cb = (admit name now cb).0
step name success cb = record_success cb
step name (failure now) cb = record_error now cb
step name dropped cb = cb

unfoldable pub run : Text → List Event → CircuitBreakerState → CircuitBreakerState
unfolding step
run name [] cb = cb
run name (e ∷ es) cb = run name es (step name e cb)
