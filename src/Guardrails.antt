-- ===== src/Guardrails.antt =====
-- src/guardrails.rs: rate limit, loop detection and output budget of a session. Instants are
-- nanoseconds; `t > now - d` is written `now < t + d`, since the subtraction of the source goes
-- below the start of the clock where the one on ℕ stops.

pub mod Normalization
pub mod History
pub mod Window
pub mod Loops
pub mod Bounds
mod Tests
use intermcp.Prelude.{
  ℕ, ◌+◌, ◌*◌, ◌%◌, ◌/◌, ◌^◌, Text, codes, not, Option, none, some, List, [], ◌∷◌, ◌++◌, ltb, leb,
  eqb, ◌==◌, text_is_eq, if◌then◌else◌, HashMap, lookup, insert, retain, length, is_empty, add_u32,
  add_u64, saturating_add, len,
}
use intermcp.Error.{
  Result, ok, err, FastMcpError, tool_execution, rate_limit_exceeded, infinite_loop,
  repeated_pattern, budget_exceeded,
}

abbrev pub second : ℕ
second = 10 ^ 9

abbrev pub minute : ℕ
minute = 60 * second

abbrev pub hour : ℕ
hour = 3600 * second

abbrev pub recent_window : ℕ
recent_window = 64

pub record GuardrailPolicy : Type 0 where
  pub max_calls_per_minute : ℕ
  pub loop_detection_threshold : ℕ
  pub max_session_chars : Option ℕ
  pub char_history : List (ℕ × ℕ)
  pub history : HashMap Text (List ℕ)
  pub last_signature : Option (Text × ℕ)
  pub recent_signatures : List Text
  pub prune_counter : ℕ

unfoldable pub new : ℕ → ℕ → GuardrailPolicy
new max_calls_per_minute loop_detection_threshold = record {
  max_calls_per_minute = max_calls_per_minute;
  loop_detection_threshold = loop_detection_threshold;
  max_session_chars = none;
  char_history = [];
  history = [];
  last_signature = none;
  recent_signatures = [];
  prune_counter = 0;
}

unfoldable pub with_char_budget : ℕ → GuardrailPolicy → GuardrailPolicy
with_char_budget max_chars p = record p { max_session_chars = some max_chars }

-- The entries of the last hour at the front of `char_history`.
unfoldable pub drop_old : ℕ → List (ℕ × ℕ) → List (ℕ × ℕ)
drop_old now [] = []
drop_old now ((time, n) ∷ h) =
    let rest = drop_old now h in if ltb (time + hour) now then rest else (time, n) ∷ h

abbrev pub chars : List (ℕ × ℕ) → ℕ
chars [] = 0
chars ((time, n) ∷ h) = n + chars h

record_within : ℕ → ℕ → ℕ → GuardrailPolicy → GuardrailPolicy × Result (Unit {0}) FastMcpError
record_within budget now new_chars p =
    let history = drop_old now p.char_history in
    let total = saturating_add (chars history) new_chars in
    if ltb budget total
    then (record p { char_history = history }, err (tool_execution (budget_exceeded total budget)))
    else (record p { char_history = history ++ (now, new_chars) ∷ [] }, ok tt)

record_budgeted :
    Option ℕ → ℕ → ℕ → GuardrailPolicy → GuardrailPolicy × Result (Unit {0}) FastMcpError
record_budgeted none now new_chars p = (p, ok tt)
record_budgeted (some budget) now new_chars p = record_within budget now new_chars p

unfoldable pub record_output :
    ℕ → Text → GuardrailPolicy → GuardrailPolicy × Result (Unit {0}) FastMcpError
unfolding record_budgeted record_within
record_output now text p = record_budgeted p.max_session_chars now (len text) p

-- The timestamps of the last minute.
unfoldable pub live : ℕ → List ℕ → List ℕ
live now ts = retain (λ t. ltb now (t + minute)) ts

-- `hist.retain`: every entry is pruned, and dropped when nothing is left.
unfoldable pub prune : ℕ → HashMap Text (List ℕ) → HashMap Text (List ℕ)
unfolding live
prune now [] = []
prune now ((k, ts) ∷ h) =
    let rest = prune now h in if is_empty (live now ts) then rest else (k, live now ts) ∷ rest

abbrev pub or_default : Option (List ℕ) → List ℕ
or_default none = []
or_default (some ts) = ts

-- `while recent.len() > RECENT_WINDOW { recent.pop_front(); }`
unfoldable pub pop_over : ℕ → List Text → List Text
pop_over n [] = []
pop_over n (s ∷ r) = let rest = pop_over n r in if ltb n (length (s ∷ r)) then rest else s ∷ r

abbrev pub occurrences : Text → List Text → ℕ
occurrences s r = length (retain (λ x. x == s) r)

consecutive : Text → Option (Text × ℕ) → ℕ
consecutive sig none = 1
consecutive sig (some (prev, c)) = if prev == sig then add_u32 c 1 else 1

-- From the detection of non-consecutive repetitions on.
check_recent : Text → Text → GuardrailPolicy → GuardrailPolicy × Result (Unit {0}) FastMcpError
check_recent tool_name sig p =
    let recent = pop_over recent_window (p.recent_signatures ++ sig ∷ []) in
    let repeated_count = occurrences sig recent in
    let p' = record p { recent_signatures = recent } in
    if ltb p.loop_detection_threshold repeated_count
    then (p', err (tool_execution (repeated_pattern tool_name repeated_count)))
    else (p', ok tt)

-- From the consecutive signatures on.
check_loop : Text → Text → GuardrailPolicy → GuardrailPolicy × Result (Unit {0}) FastMcpError
unfolding check_recent
check_loop tool_name sig p =
    let c = consecutive sig p.last_signature in
    if ltb p.loop_detection_threshold c
    then (p, err (tool_execution (infinite_loop tool_name c)))
    else check_recent tool_name sig (record p { last_signature = some (sig, c) })

-- The timestamps of a tool that a call at `now` sees: the map is pruned at every hundredth call.
unfoldable pub seen : ℕ → Text → GuardrailPolicy → HashMap Text (List ℕ)
seen now tool_name p = if eqb (p.prune_counter % 100) 0 then prune now p.history else p.history

-- `arg_hash` is `compute_normalized_arguments_hash(arguments)`.
unfoldable pub check_call :
    ℕ → Text → Text → GuardrailPolicy → GuardrailPolicy × Result (Unit {0}) FastMcpError
unfolding check_loop consecutive seen
check_call now tool_name arg_hash p =
    let hist = seen now tool_name p in
    let timestamps = live now (or_default (lookup tool_name hist)) in
    let counter = add_u64 p.prune_counter 1 in
    if leb p.max_calls_per_minute (length timestamps)
    then (
      record p { history = insert tool_name timestamps hist; prune_counter = counter },
      err (tool_execution (rate_limit_exceeded tool_name p.max_calls_per_minute)),
    )
    else check_loop tool_name (tool_name ++ codes ":" ++ arg_hash) (record p {
      history = insert tool_name (timestamps ++ now ∷ []) hist;
      prune_counter = counter;
    })

-- `reset_signature`, whose arguments are unused.
unfoldable pub reset_signature : GuardrailPolicy → GuardrailPolicy
reset_signature p = record p { last_signature = none; recent_signatures = [] }

unfoldable pub reset : GuardrailPolicy → GuardrailPolicy
reset p = record p {
  history = [];
  char_history = [];
  last_signature = none;
  recent_signatures = [];
}

unfoldable pub estimated_tokens_used : ℕ → GuardrailPolicy → ℕ
estimated_tokens_used now p = chars (retain (λ e. not (ltb (e.0 + hour) now)) p.char_history) / 4
