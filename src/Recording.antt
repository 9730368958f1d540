-- ===== src/Recording.antt =====
-- src/record.rs: the frames of a recorded session and their replay. The file is the list of its
-- lines; the parsers and printers of JSON and the server are parameters. The counters of a replay
-- count lines of a file, and are taken not to wrap around.
pub mod Mutations
pub mod Replay
mod Tests
use intermcp.Prelude.{
  ℕ, ◌+◌, Text, codes, Bool, true, false, not, ◌&&◌, ◌||◌, Option, none, some, List, [], ◌∷◌, ◌++◌,
  ◌==◌, text_is_eq, any, is_empty, trim, starts_with, eq_ignore_ascii_case, if◌then◌else◌,
}
use intermcp.Error.{Result, ok, err, FastMcpError, ◌>>=◌}
use intermcp.Json.{Value, object, Fields, end, field, get, as_str, value_eq}

pub data FrameDirection : Type 0 where
  inbound outbound : FrameDirection

pub record SessionFrame : Type 0 where
  pub v : ℕ
  pub ts : ℕ
  pub dir : FrameDirection
  pub payload : Value

-- The frame that `record` appends.
unfoldable pub frame_of : ℕ → FrameDirection → Value → SessionFrame
frame_of ts dir payload = record { v = 1; ts = ts; dir = dir; payload = payload }

-- The messages of a replay, with the values that their format strings interpolate.
pub data Complaint : Type 0 where
  skipped : (call : ℕ) → (tool_name : Text) → Complaint
  differs : (call : ℕ) → (expected actual : Value) → Complaint

pub record ReplaySummary : Type 0 where
  pub total_calls : ℕ
  pub matched : ℕ
  pub mismatched : ℕ
  pub errors : List Complaint

abbrev pub empty_summary : ReplaySummary
empty_summary = record { total_calls = 0; matched = 0; mismatched = 0; errors = [] }

-- `Map::remove`
remove_field : Text → Fields → Fields
remove_field k end = end
remove_field k (field j w fs) =
    let rest = remove_field k fs in if j == k then rest else field j w rest

without_id : Value → Value
without_id (object fs) = object (remove_field (codes "id") fs)
without_id v = v

unfoldable pub responses_match : Value → Value → Bool
unfolding without_id remove_field value_eq
responses_match expected actual = value_eq (without_id expected) (without_id actual)

abbrev text_of : Option Value → Option Text
text_of none = none
text_of (some v) = as_str v

abbrev name_in : Option Value → Option Text
name_in none = none
name_in (some params) = text_of (get (codes "name") params)

pub extract_tool_name : Value → Option Text
extract_tool_name payload = name_in (get (codes "params") payload)

pub is_mutating_tool : Text → Bool
is_mutating_tool name =
    any (λ m. eq_ignore_ascii_case m name) (codes "system_run_command" ∷ codes "fs_write_file" ∷ [])
    || (starts_with name (codes "git_")
        && not (name == codes "git_status")
        && not (name == codes "git_diff")
        && not (name == codes "git_log"))

abbrev is_mutating_name : Option Text → Bool
is_mutating_name none = false
is_mutating_name (some name) = is_mutating_tool name

abbrev is_call : Option Text → Bool
is_call none = false
is_call (some method) = method == codes "tools/call"

unfoldable pub is_mutating_request : Value → Bool
unfolding extract_tool_name is_mutating_tool
is_mutating_request payload =
    is_call (text_of (get (codes "method") payload)) && is_mutating_name (extract_tool_name payload)

abbrev unwrap_or : Option Text → Text → Text
unwrap_or none d = d
unwrap_or (some t) d = t

-- The loop's state: the summary, `expected_outbound`, and the server.
pub record Progress (S : Type 0) : Type 0 where
  pub summary : ReplaySummary
  pub expected : Option Value
  pub server : S

abbrev pub counted : ReplaySummary → ReplaySummary
counted r = record r { total_calls = r.total_calls + 1 }

abbrev pub match_counted : ReplaySummary → ReplaySummary
match_counted r = record r { matched = r.matched + 1 }

abbrev pub mismatch_counted : ReplaySummary → ReplaySummary
mismatch_counted r = record r { mismatched = r.mismatched + 1 }

abbrev pub complained : Complaint → ReplaySummary → ReplaySummary
complained c r = record r { errors = r.errors ++ c ∷ [] }

module _ {S : Type 0} (handle : Text → S → S × Option Text) (print : Value → Text)
    (parse : Text → Option Value) where
  -- The comparison of an answer that is JSON.
  pub compare_values : Value → Option Value → ReplaySummary → ReplaySummary
  compare_values expected none r = mismatch_counted r
  compare_values expected (some actual) r =
      if responses_match expected actual
      then match_counted r
      else complained (differs r.total_calls expected actual) (mismatch_counted r)

  pub judge : Option Value → Option Text → ReplaySummary → ReplaySummary
  judge (some expected) (some answer) r = compare_values expected (parse answer) r
  judge (some expected) none r = mismatch_counted r
  judge none (some answer) r = match_counted r
  judge none none r = r

  pub execute_call : Value → Progress S → Progress S
  execute_call payload p =
      let (server', answer) = handle (print payload) p.server in
      record { summary = judge p.expected answer p.summary; expected = none; server = server' }

  pub skip_call : Value → Progress S → Progress S
  skip_call payload p =
      let r = mismatch_counted p.summary in
      record p {
        summary =
            complained
              (skipped r.total_calls (unwrap_or (extract_tool_name payload) (codes "unknown"))) r;
      }

  pub on_frame : Bool → FrameDirection → Value → Progress S → Progress S
  on_frame allow_mutations outbound payload p = record p { expected = some payload }
  on_frame allow_mutations inbound payload p =
      let p' = record p { summary = counted p.summary } in
      if not allow_mutations && is_mutating_request payload
      then skip_call payload p'
      else execute_call payload p'

  pub replay_frames : Bool → List SessionFrame → Progress S → Progress S
  replay_frames allow_mutations [] p = p
  replay_frames allow_mutations (f ∷ fs) p =
      replay_frames allow_mutations fs (on_frame allow_mutations f.dir f.payload p)

  -- The loop over the lines; blank ones are passed over, and a line that is no frame ends it.
  pub replay_lines :
      (Text → Result SessionFrame FastMcpError)
      → Bool
      → List Text
      → Progress S
      → Result (Progress S) FastMcpError
  replay_lines parse_frame allow_mutations [] p = ok p
  replay_lines parse_frame allow_mutations (line ∷ lines) p = elim (is_empty (trim line)) [
    | true ↦ replay_lines parse_frame allow_mutations lines p
    | false ↦ elim (parse_frame (trim line)) [
      | ok f ↦
          replay_lines parse_frame allow_mutations lines
            (on_frame allow_mutations f.dir f.payload p)
      | err e ↦ err e
    ]
  ]

  unfoldable pub replay_with_options :
      (Text → Result SessionFrame FastMcpError)
      → List Text
      → S
      → Bool
      → Result ReplaySummary FastMcpError
  replay_with_options parse_frame lines server allow_mutations =
      replay_lines parse_frame allow_mutations lines
        (record { summary = empty_summary; expected = none; server = server })
      >>= λ p. ok p.summary
