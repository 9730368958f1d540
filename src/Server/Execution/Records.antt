-- ===== src/Server/Execution/Records.antt =====
-- src/server.rs: what is left of a run of a tool in the log, the receipts and the cache.
use intermcp.Server.Steps.{◌>>◌, passed_on, ended}
use intermcp.Prelude.{Bool, true, false, not, ◌||◌, ap, ◌≡◌, refl, ◌∙◌, arith, Text}
use intermcp.Error.{Result, ok, err}
use intermcp.Json.{Value}
use intermcp.Protocol.Results.{CallToolResult, result_value}
use intermcp.Receipts.{success}
use intermcp.Server.Execution.Limits.{
  over_limit, over_budget, HasBudget, output_gate_lem, budget_gate_lem,
}
use intermcp.Server.Execution.Traces.{
  IsLogged, logged-IsLogged, IsReceipted, receipted-IsReceipted, stored-uncached,
}
use mathlib.Core.Path.{subst}
use intermcp.Server.State.{Server, Host, Surroundings, Tool, Refusal}
use intermcp.Server.Masking.{redact_tool_result}
use intermcp.Server.Execution.{
  complete, output_gate, output_with, budget_gate, budget_with, conclude, record_success, logged,
  receipted, execution, stored,
}

-- The parts of the server that hold records of runs.
pub record SameRecords (s s' : Server) : Type 0 where
  pub same_smac : s'.smac ≡ s.smac
  pub same_receipts : s'.receipt_book ≡ s.receipt_book
  pub same_cache : s'.cache ≡ s.cache
  pub same_session : s'.session_id ≡ s.session_id

module _ (host : Host) (around : Surroundings) (name : Text) (arguments : Value) where
  output_gate-SameRecords :
      (r : CallToolResult) (s : Server)
      → SameRecords s (output_gate host around name arguments r s).0
  unfolding output_gate output_with
  output_gate-SameRecords r s = ground arith

  budget_gate-SameRecords :
      (r : CallToolResult) (s : Server)
      → SameRecords s (budget_gate host around name arguments r s).0
  unfolding budget_gate budget_with
  budget_gate-SameRecords r s = ground arith

  -- All three records hold one value, which is the one that is answered: as the operations of the
  -- parts leave it, and by the lines of the log and the book.
  pub record Recorded (tool : Tool) (v : Value) (s s' : Server) : Type 0 where
    pub in_log : s'.smac ≡ logged host around name arguments v s.smac
    pub in_receipts :
        s'.receipt_book
        ≡ receipted host around name arguments
            (execution host around name arguments tool s.session_id success v)
            s.receipt_book
    pub in_cache : s'.cache ≡ stored host around name arguments tool v s.cache
    pub log_line : IsLogged host around name arguments v s.smac s'.smac
    pub receipt_line : IsReceipted host around name arguments v s.receipt_book s'.receipt_book
    pub uncached : tool.is_cacheable ≡ false → s'.cache ≡ s.cache

  conclude-Recorded :
      (tool : Tool) (r : CallToolResult) (s s1 : Server)
      → SameRecords s s1
      → Recorded tool (result_value r) s (conclude host around name arguments tool r s1).0
  unfolding conclude record_success
  conclude-Recorded tool r s s1 same =
      let v = result_value r in
      record {
        in_log = ap (logged host around name arguments v) same.same_smac;
        in_receipts = ground arith;
        in_cache = ap (stored host around name arguments tool v) same.same_cache;
        log_line =
            subst
              (λ o.
                IsLogged host around name arguments v o
                  (logged host around name arguments v s1.smac))
              same.same_smac (logged-IsLogged host around name arguments v s1.smac);
        receipt_line =
            subst
              (λ o. IsReceipted host around name arguments v o (
                receipted host around name arguments
                  (execution host around name arguments tool s1.session_id success v)
                  s1.receipt_book))
              same.same_receipts
              (receipted-IsReceipted host around name arguments tool s1.session_id v
                s1.receipt_book);
        uncached =
            λ h. stored-uncached host around name arguments tool v s1.cache h ∙ same.same_cache;
      }

  abbrev completed : Tool → CallToolResult → Server → Server × Result Value Refusal
  completed = complete host around name arguments

  -- How a run with this result ends: it exceeds a limit, is refused and leaves no record, or it does
  -- not, and its masked result is answered and recorded.
  abbrev pub EndsRecorded :
      (exceeds : Bool) → Tool → Value → Server → Server × Result Value Refusal → Type 0
  EndsRecorded true tool v s (s', r) = (refusal : Refusal) × (r ≡ err refusal) × SameRecords s s'
  EndsRecorded false tool v s (s', r) = (r ≡ ok v) × Recorded tool v s s'

  trans_records : (s s1 s2 : Server) → SameRecords s s1 → SameRecords s1 s2 → SameRecords s s2
  trans_records s s1 s2 p q = record {
    same_smac = q.same_smac ∙ p.same_smac;
    same_receipts = q.same_receipts ∙ p.same_receipts;
    same_cache = q.same_cache ∙ p.same_cache;
    same_session = q.same_session ∙ p.same_session;
  }

  output_gate-guardrail :
      (r : CallToolResult) (s : Server)
      → (output_gate host around name arguments r s).0.guardrail ≡ s.guardrail
  unfolding output_gate output_with
  output_gate-guardrail r s = ground arith

  budgeted :
      (tool : Tool) (masked : CallToolResult) (s s1 : Server) (exceeds : Bool)
      → SameRecords s s1
      → HasBudget s1.guardrail
      → over_budget around.output_time masked s1.guardrail ≡ exceeds
      → EndsRecorded exceeds tool (result_value masked) s (
          (budget_gate host around name arguments masked
              >> conclude host around name arguments tool masked)
            s1)
  budgeted tool masked s s1 true same fits o =
      let budget = budget_gate host around name arguments masked in
      let end = conclude host around name arguments tool masked in
      let verdict = budget_gate_lem host around name arguments masked s1 fits ∙ ap not o in
      let (e, h) = ended budget end s1 verdict in
      rw h (e, refl, trans_records s s1 (budget s1).0 same (budget_gate-SameRecords masked s1))
  budgeted tool masked s s1 false same fits o =
      let budget = budget_gate host around name arguments masked in
      let end = conclude host around name arguments tool masked in
      let verdict = budget_gate_lem host around name arguments masked s1 fits ∙ ap not o in
      let kept = trans_records s s1 (budget s1).0 same (budget_gate-SameRecords masked s1) in
      rw (passed_on budget end s1 verdict)
        (unfold conclude in refl, conclude-Recorded tool masked s (budget s1).0 kept)

  -- The two limits, one after the other.
  limited :
      (tool : Tool) (r masked : CallToolResult) (s : Server) (over_size over_chars : Bool)
      → HasBudget s.guardrail
      → over_limit r s.policy_engine ≡ over_size
      → over_budget around.output_time masked s.guardrail ≡ over_chars
      → EndsRecorded (over_size || over_chars) tool (result_value masked) s (
          (output_gate host around name arguments r
              >> (budget_gate host around name arguments masked
                  >> conclude host around name arguments tool masked))
            s)
  limited tool r masked s true over_chars fits l b =
      let size = output_gate host around name arguments r in
      let rest =
        budget_gate host around name arguments masked
        >> conclude host around name arguments tool masked in
      let verdict = output_gate_lem host around name arguments r s ∙ ap not l in
      let (e, h) = ended size rest s verdict in rw h (e, refl, output_gate-SameRecords r s)
  limited tool r masked s false over_chars fits l b =
      let size = output_gate host around name arguments r in
      let rest =
        budget_gate host around name arguments masked
        >> conclude host around name arguments tool masked in
      let verdict = output_gate_lem host around name arguments r s ∙ ap not l in
      let same = output_gate-guardrail r s in
      rw (passed_on size rest s verdict) (
        budgeted tool masked s (size s).0 over_chars (output_gate-SameRecords r s) (rw same fits)
          (rw same b))

  -- A run whose output is over the limit of an enforcing policy, or whose texts are over the output
  -- budget, is refused and leaves no trace in the audit log, the receipts and the cache. Every other
  -- run is answered with one value, the JSON of its masked result. The log gets one line, an entry
  -- with the tool and the hashes of the arguments and of that value; the book one line, a receipt of
  -- a success with their hashes, unless a hash fails; the cache gets the value, if the tool is
  -- cacheable. The limit counts the bytes of the result before it is masked, the budget those of the
  -- texts of the masked one, with what the guardrail has recorded in the last hour. A budget is taken
  -- to be less than 2^64 - 1.
  pub complete-EndsRecorded :
      (tool : Tool) (r : CallToolResult) (s : Server)
      → HasBudget s.guardrail
      → EndsRecorded
          (over_limit r s.policy_engine
            || over_budget around.output_time
                (redact_tool_result host s.secret_env_names r)
                s.guardrail)
          tool
          (result_value (redact_tool_result host s.secret_env_names r))
          s
          (complete host around name arguments tool r s)
  unfolding complete
  complete-EndsRecorded tool r s fits =
      limited tool r (redact_tool_result host s.secret_env_names r) s _ _ fits refl refl
