-- ===== src/Hub/CircuitTests.antt =====
-- Runs and instances for the circuit breaker of src/hub.rs.
use intermcp.Prelude.{add_u32, ℕ, ◌≡◌, refl, codes, Text, [], ◌∷◌, ◌*◌, ◌^◌, arith, some}
use intermcp.Hub.Circuit.{
  record_success, record_error, closed, half_open, CircuitBreakerState, initial, request, success,
  failure, run, admit,
}
use intermcp.Error.{ok, err, tool_execution, circuit_half_open}
use intermcp.Hub.Circuit.Breaker.{IsValid, opened, requests, run-IsValid, open_then_probe}

abbrev server : Text
server = codes "files"

abbrev sec : ℕ
sec = 10 ^ 9

-- Two failures, a success and a late failure leave one error.
errors_restart :
    run server (failure 1 ∷ failure 2 ∷ success ∷ failure 50 ∷ []) initial
    ≡ record { state = closed; consecutive_errors = 1; first_error_time = some 50 }
unfolding run record_error record_success add_u32
errors_restart = refl

-- An error more than 30 s after the first one starts the count again.
late_error :
    run server (failure 0 ∷ failure 1 ∷ failure (31 * sec) ∷ []) initial
    ≡ record { state = closed; consecutive_errors = 1; first_error_time = some (31 * sec) }
unfolding run record_error add_u32
late_error = refl

run-IsValid_example :
    IsValid (run server (failure 1 ∷ failure 2 ∷ request 3 ∷ failure 4 ∷ []) initial)
run-IsValid_example = run-IsValid server (failure 1 ∷ failure 2 ∷ request 3 ∷ failure 4 ∷ [])

abbrev tripped : CircuitBreakerState
tripped = opened 0 0

open_then_probe_example :
    (run server (requests (5 ∷ 6 ∷ [])) tripped ≡ tripped)
    × (admit server (40 * sec) tripped ≡ (record tripped { state = half_open }, ok tt))
    × (admit server (90 * sec) (run server (request (40 * sec) ∷ request (50 * sec) ∷ []) tripped)
        ≡ (record tripped { state = half_open }, err (tool_execution (circuit_half_open server))))
open_then_probe_example =
    open_then_probe server tripped 0 (5 ∷ 6 ∷ []) (40 * sec) (90 * sec) (request (50 * sec) ∷ [])
      refl (omega arith, (omega arith, tt)) (omega arith) tt
