-- ===== src/Guardrails/Loops.antt =====
-- The loop breaker of src/guardrails.rs over runs of identical calls.
use intermcp.Prelude.{
  ℕ, ◌+◌, ◌-◌, ◌^◌, ◌≤◌, ◌<◌, ◌≡◌, Text, codes, Bool, true, ◌&&◌, Option, none, some, List, [], ◌∷◌,
  ◌++◌, arith, length, ==_refl, add_u32-eq, text_is_eq,
}
use mathlib.Core.Bool.{and-eq-true_iff}
use intermcp.Guardrails.{consecutive, GuardrailPolicy, check_call}
use intermcp.Error.{is_ok}

abbrev signature : Text → Text → Text
signature tool arg_hash = tool ++ codes ":" ++ arg_hash

-- A session that calls one tool at the given times, always with the same arguments, and has every
-- call accepted.
unfoldable pub all_accepted : Text → Text → List ℕ → GuardrailPolicy → Bool
all_accepted tool arg_hash [] p = true
all_accepted tool arg_hash (t ∷ ts) p =
    is_ok (check_call t tool arg_hash p).1
    && all_accepted tool arg_hash ts (check_call t tool arg_hash p).0

abbrev count_of : Option (Text × ℕ) → ℕ
count_of none = 0
count_of (some (s, c)) = c

threshold-check_call :
    (now : ℕ) (tool arg_hash : Text) (p : GuardrailPolicy)
    → (check_call now tool arg_hash p).0.loop_detection_threshold ≡ p.loop_detection_threshold
unfolding check_call
threshold-check_call now tool arg_hash p = ground arith

-- The count of a signature is within the threshold.
abbrev pub CountWithin : ℕ → Option (Text × ℕ) → Type 0
CountWithin threshold none = Unit
CountWithin threshold (some (s, c)) = c ≤ threshold

consecutive_pos :
    (sig : Text) (last : Option (Text × ℕ)) (threshold : ℕ)
    → threshold < 2 ^ 32 - 1
    → CountWithin threshold last
    → 1 ≤ consecutive sig last
unfolding consecutive
consecutive_pos sig none threshold small w = omega arith
consecutive_pos sig (some (s, c)) threshold small w = ground (arith, add_u32-eq c 1)

-- An accepted call leaves its signature with a count in 1 … threshold.
accepted_signature :
    (now : ℕ) (tool arg_hash : Text) (p : GuardrailPolicy)
    → is_ok (check_call now tool arg_hash p).1 ≡ true
    → ((check_call now tool arg_hash p).0.last_signature
        ≡ some (signature tool arg_hash, consecutive (signature tool arg_hash) p.last_signature))
      × (consecutive (signature tool arg_hash) p.last_signature ≤ p.loop_detection_threshold)
unfolding check_call
accepted_signature now tool arg_hash p h = (ground arith, ground arith)

-- The count goes up by one at an accepted call with the signature of the last one.
accepted_repeat :
    (now : ℕ) (tool arg_hash : Text) (p : GuardrailPolicy) (n : ℕ)
    → p.loop_detection_threshold < 2 ^ 32 - 1
    → n ≤ p.loop_detection_threshold
    → p.last_signature ≡ some (signature tool arg_hash, n)
    → is_ok (check_call now tool arg_hash p).1 ≡ true
    → ((check_call now tool arg_hash p).0.last_signature ≡ some (signature tool arg_hash, n + 1))
      × (n + 1 ≤ p.loop_detection_threshold)
unfolding check_call
accepted_repeat now tool arg_hash p n small le last h =
    ground (arith, ==_refl (signature tool arg_hash), add_u32-eq n 1)

repeats_bound :
    (tool arg_hash : Text) (ts : List ℕ) (p : GuardrailPolicy) (n : ℕ)
    → p.loop_detection_threshold < 2 ^ 32 - 1
    → n ≤ p.loop_detection_threshold
    → p.last_signature ≡ some (signature tool arg_hash, n)
    → all_accepted tool arg_hash ts p ≡ true
    → n + length ts ≤ p.loop_detection_threshold
unfolding all_accepted
repeats_bound tool arg_hash [] p n small le last h = omega arith
repeats_bound tool arg_hash (t ∷ ts) p n small le last h =
    let p' = (check_call t tool arg_hash p).0 in
    let (good, rest) = (and-eq-true_iff _ _).0 h in
    let (last', le') = accepted_repeat t tool arg_hash p n small le last good in
    let same = threshold-check_call t tool arg_hash p in
    let ih = repeats_bound tool arg_hash ts p' (n + 1) (rw same small) (rw same le') last' rest in
    omega (arith, ih, same)

-- With a threshold below 2^32 - 1, from a state whose count is within it, a row of calls of one
-- tool with the same arguments has at most `threshold` calls if the guardrail accepts every one.
pub identical-le-threshold :
    (tool arg_hash : Text) (ts : List ℕ) (p : GuardrailPolicy)
    → p.loop_detection_threshold < 2 ^ 32 - 1
    → CountWithin p.loop_detection_threshold p.last_signature
    → all_accepted tool arg_hash ts p ≡ true
    → length ts ≤ p.loop_detection_threshold
unfolding all_accepted
identical-le-threshold tool arg_hash [] p small w h = omega arith
identical-le-threshold tool arg_hash (t ∷ ts) p small w h =
    let p' = (check_call t tool arg_hash p).0 in
    let n = consecutive (signature tool arg_hash) p.last_signature in
    let (good, rest) = (and-eq-true_iff _ _).0 h in
    let (last', le) = accepted_signature t tool arg_hash p good in
    let same = threshold-check_call t tool arg_hash p in
    let ih = repeats_bound tool arg_hash ts p' n (rw same small) (rw same le) last' rest in
    omega (
      arith,
      ih,
      same,
      consecutive_pos (signature tool arg_hash) p.last_signature p.loop_detection_threshold small w,
    )
