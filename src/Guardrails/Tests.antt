-- ===== src/Guardrails/Tests.antt =====
-- Runs and instances for src/guardrails.rs.
use intermcp.Json.{insert_field, Value, object, field, string, null, end}
use intermcp.Prelude.{
  trim, to_ascii_lowercase, codes, lookup, insert, add_u64, add_u32, text_eq, ℕ, ◌≡◌, ◌≤◌, refl,
  Text, List, [], ◌∷◌, length, true, arith,
}
use intermcp.Guardrails.Normalization.{normalize}
use intermcp.Guardrails.{
  add_u32, add_u64, pop_over, insert, lookup, prune, GuardrailPolicy, new, with_char_budget,
  check_call, live,
}
use intermcp.Guardrails.Window.{Call, accepted, accepted-le-limit}
use intermcp.Guardrails.Loops.{all_accepted, identical-le-threshold}
use intermcp.Guardrails.Bounds.{
  IsWithin, use_all, calls, outputs, forgets, resets, use_all-IsWithin,
}

abbrev tool : Text
tool = codes "read"

abbrev calls_made : List Call
calls_made =
    (record { time = 1; tool = tool; arg_hash = codes "a" })
    ∷ (record { time = 2; tool = tool; arg_hash = codes "b" })
    ∷ (record { time = 3; tool = tool; arg_hash = codes "c" })
    ∷ []

-- With a limit of two calls the third is refused.
third_refused : accepted tool calls_made (new 2 5) ≡ 1 ∷ 2 ∷ []
unfolding accepted check_call new live prune lookup insert pop_over add_u64 add_u32 text_eq
third_refused = refl

accepted-le-limit_example : length (live 3 (accepted tool calls_made (new 2 5))) ≤ 2
accepted-le-limit_example =
    accepted-le-limit 2 5 3 tool calls_made (omega arith, (omega arith, (omega arith, tt)))

abbrev two : List ℕ
two = 1 ∷ 2 ∷ []

two_accepted : all_accepted tool (codes "a") two (new 10 2) ≡ true
unfolding all_accepted check_call new live prune lookup insert pop_over add_u64 add_u32 text_eq
two_accepted = refl

identical-le-threshold_example : length two ≤ (new 10 2).loop_detection_threshold
identical-le-threshold_example =
    identical-le-threshold tool (codes "a") two (new 10 2) (unfold new in omega arith)
      (unfold new in tt) two_accepted

abbrev start : GuardrailPolicy
start = with_char_budget 100 (new 10 2)

use_all-IsWithin_example :
    IsWithin
      (use_all (calls 1 tool (codes "a") ∷ outputs 2 (codes "hello") ∷ forgets ∷ resets ∷ []) start)
use_all-IsWithin_example =
    use_all-IsWithin (calls 1 tool (codes "a") ∷ outputs 2 (codes "hello") ∷ forgets ∷ resets ∷ [])
      start
      (unfold with_char_budget new in
        record { count = tt; recent = omega arith; budget = (omega arith, omega arith) })

abbrev messy : Value
messy = object (field (codes " B") (string (codes " x Y ")) (field (codes "a") null end))

messy_normalized :
    normalize to_ascii_lowercase messy
    ≡ object (field (codes "b") (string (codes "x y")) (field (codes "a") null end))
unfolding normalize insert_field text_eq to_ascii_lowercase trim
messy_normalized = refl
