-- ===== src/Guardrails/Bounds.antt =====
-- The well-formedness of the guardrail state of src/guardrails.rs, and its output budget.
use intermcp.Guardrails.{
  record_within, record_budgeted, record_budgeted, GuardrailPolicy, new, check_call, record_output,
  reset, reset_signature, drop_old, chars, pop_over, recent_window,
}
use intermcp.Prelude.{
  ℕ, ◌+◌, ◌-◌, ◌^◌, ◌≤◌, ◌<◌, ◌≡◌, Text, codes, Option, none, some, List, [], ◌∷◌, ◌++◌, arith,
  length, saturating_add, len,
}
use intermcp.Guardrails.Loops.{CountWithin}

length-pop_over : (n : ℕ) (r : List Text) → length (pop_over n r) ≤ n
unfolding pop_over
length-pop_over n [] = omega arith
length-pop_over n (s ∷ r) = ground (arith, length-pop_over n r)

pub chars-append : (h g : List (ℕ × ℕ)) → chars (h ++ g) ≡ chars h + chars g
chars-append [] g = omega arith
chars-append ((t, n) ∷ h) g = omega (arith, chars-append h g)

chars-drop_old : (now : ℕ) (h : List (ℕ × ℕ)) → chars (drop_old now h) ≤ chars h
unfolding drop_old
chars-drop_old now [] = omega arith
chars-drop_old now ((t, n) ∷ h) = ground (arith, chars-drop_old now h)

abbrev pub BudgetKept : Option ℕ → List (ℕ × ℕ) → Type 0
BudgetKept none h = Unit
BudgetKept (some budget) h = (budget < 2 ^ 64 - 1) × (chars h ≤ budget)

-- The counts and buffers keep their limits, and the map is one.
pub record IsWithin (p : GuardrailPolicy) : Type 0 where
  pub count : CountWithin p.loop_detection_threshold p.last_signature
  pub recent : length p.recent_signatures ≤ recent_window
  pub budget : BudgetKept p.max_session_chars p.char_history

IsWithin-new : (max_calls threshold : ℕ) → IsWithin (new max_calls threshold)
unfolding new
IsWithin-new max_calls threshold = record { count = tt; recent = omega arith; budget = tt }

check_call-IsWithin :
    (now : ℕ) (tool arg_hash : Text) (p : GuardrailPolicy)
    → IsWithin p
    → IsWithin (check_call now tool arg_hash p).0
unfolding check_call
check_call-IsWithin now tool arg_hash p v = record {
  count = ground arith;
  recent =
      ground
        (arith, length-pop_over 64 (p.recent_signatures ++ (tool ++ codes ":" ++ arg_hash) ∷ []));
  budget = ground arith;
}

le_of_saturating_add : (a b c : ℕ) → c < 2 ^ 64 - 1 → saturating_add a b ≤ c → a + b ≤ c
unfolding saturating_add
le_of_saturating_add a b c small h = omega arith

record_within-BudgetKept :
    (budget now n : ℕ) (p : GuardrailPolicy)
    → BudgetKept (some budget) p.char_history
    → BudgetKept (some budget) (record_within budget now n p).0.char_history
unfolding record_within
record_within-BudgetKept budget now n p k =
    let h = drop_old now p.char_history in
    ground (
      arith,
      chars-drop_old now p.char_history,
      chars-append h ((now, n) ∷ []),
      le_of_saturating_add (chars h) n budget,
    )

record_budgeted-BudgetKept :
    (budget : Option ℕ) (now n : ℕ) (p : GuardrailPolicy)
    → BudgetKept budget p.char_history
    → BudgetKept budget (record_budgeted budget now n p).0.char_history
unfolding record_budgeted
record_budgeted-BudgetKept none now n p k = tt
record_budgeted-BudgetKept (some budget) now n p k = record_within-BudgetKept budget now n p k

record_output-kept :
    (now : ℕ) (text : Text) (p : GuardrailPolicy)
    → ((record_output now text p).0.max_session_chars ≡ p.max_session_chars)
      × ((record_output now text p).0.loop_detection_threshold ≡ p.loop_detection_threshold)
      × ((record_output now text p).0.last_signature ≡ p.last_signature)
      × ((record_output now text p).0.recent_signatures ≡ p.recent_signatures)
unfolding record_output
record_output-kept now text p = (ground arith, ground arith, ground arith, ground arith)

record_output-IsWithin :
    (now : ℕ) (text : Text) (p : GuardrailPolicy)
    → IsWithin p
    → IsWithin (record_output now text p).0
record_output-IsWithin now text p v =
    let (chars_same, threshold_same, last_same, recent_same) = record_output-kept now text p in
    record {
      count = rw (threshold_same, last_same) v.count;
      recent = rw recent_same v.recent;
      budget = rw chars_same (
          unfold record_output in
          record_budgeted-BudgetKept p.max_session_chars now (len text) p v.budget);
    }

-- What a session does with its guardrail.
pub data Use : Type 0 where
  calls : ℕ → (tool arg_hash : Text) → Use
  outputs : ℕ → (text : Text) → Use
  resets forgets : Use

unfoldable pub use_one : Use → GuardrailPolicy → GuardrailPolicy
unfolding check_call record_output reset reset_signature
use_one (calls now tool arg_hash) p = (check_call now tool arg_hash p).0
use_one (outputs now text) p = (record_output now text p).0
use_one resets p = reset p
use_one forgets p = reset_signature p

unfoldable pub use_all : List Use → GuardrailPolicy → GuardrailPolicy
unfolding use_one
use_all [] p = p
use_all (u ∷ us) p = use_all us (use_one u p)

BudgetKept-nil : (budget : Option ℕ) (h : List (ℕ × ℕ)) → BudgetKept budget h → BudgetKept budget []
BudgetKept-nil none h k = tt
BudgetKept-nil (some budget) h k = (k.0, omega arith)

use_one-IsWithin : (u : Use) (p : GuardrailPolicy) → IsWithin p → IsWithin (use_one u p)
unfolding use_one
use_one-IsWithin (calls now tool arg_hash) p v = check_call-IsWithin now tool arg_hash p v
use_one-IsWithin (outputs now text) p v = record_output-IsWithin now text p v
use_one-IsWithin resets p v = record {
  count = tt;
  recent = omega arith;
  budget = BudgetKept-nil p.max_session_chars p.char_history v.budget;
}
use_one-IsWithin forgets p v = record { count = tt; recent = omega arith; budget = v.budget }

-- From a state that is within its limits, whatever a session does with its guardrail, the count of
-- the last signature stays within the threshold, at most 64 signatures are kept, and the characters
-- that count against a budget below 2^64 - 1 stay within it.
pub use_all-IsWithin : (us : List Use) (p : GuardrailPolicy) → IsWithin p → IsWithin (use_all us p)
unfolding use_all
use_all-IsWithin [] p v = v
use_all-IsWithin (u ∷ us) p v = use_all-IsWithin us (use_one u p) (use_one-IsWithin u p v)
