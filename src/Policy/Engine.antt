-- ===== src/Policy/Engine.antt =====
-- src/policy.rs: policies, violations, and the engine's state with its rate and output limits.
use intermcp.Prelude.{
  ℕ, ◌-◌, ◌/◌, ◌^◌, ◌*◌, Text, Bool, true, false, Option, none, some, List, [], ◌∷◌, ◌++◌, ltb, leb,
  eqb, HashMap, lookup, insert, length, text_is_eq, add_u64, if◌then◌else◌,
}
use intermcp.Error.{Result, ok, err}

pub data PolicyMode : Type 0 where
  enforcing permissive audit_only : PolicyMode

pub record FilesystemPolicy : Type 0 where
  pub read_only : List Text
  pub read_write : List Text
  pub denied : List Text

pub record ShellPolicy : Type 0 where
  pub allowed_binaries : List Text
  pub blocked_patterns : List Text
  pub require_approval : List Text

pub record LimitsPolicy : Type 0 where
  pub max_calls_per_minute : ℕ
  pub max_output_bytes : ℕ

abbrev pub default_limits : LimitsPolicy
default_limits = record { max_calls_per_minute = 120; max_output_bytes = 2 * 1024 * 1024 }

pub record DeclarativePolicy : Type 0 where
  pub mode : PolicyMode
  pub filesystem : FilesystemPolicy
  pub shell : ShellPolicy
  pub limits : LimitsPolicy

-- A denial of the file system carries its path and, for a denied pattern, the pattern.
pub data PolicyViolation : Type 0 where
  nul_byte : PolicyViolation
  matches_denied : (path pattern : Text) → PolicyViolation
  write_denied read_denied : (path : Text) → PolicyViolation
  disallowed_binary blocked_shell_pattern : Text → PolicyViolation
  rate_limit_exceeded : Text → ℕ → PolicyViolation
  output_limit_exceeded : ℕ → PolicyViolation

pub data ShellPolicyDecision : Type 0 where
  allow : ShellPolicyDecision
  require_supervisor_approval : Text → ShellPolicyDecision

pub record PolicyEngine : Type 0 where
  pub policy : DeclarativePolicy
  pub rate_limits : HashMap Text (List ℕ)
  pub violations_count : ℕ

unfoldable pub new : DeclarativePolicy → PolicyEngine
new policy = record { policy = policy; rate_limits = []; violations_count = 0 }

abbrev pub is_enforcing : PolicyMode → Bool
is_enforcing enforcing = true
is_enforcing _ = false

-- A check reads the engine, may count violations, and passes or refuses.
abbrev pub Check {ℓ} : Type ℓ → Type ℓ
Check A = PolicyEngine → PolicyEngine × Result A PolicyViolation

abbrev pub continue {ℓ κ} :
    {A : Type ℓ} {B : Type κ}
    → Result A PolicyViolation
    → (A → PolicyEngine → PolicyEngine × Result B PolicyViolation)
    → PolicyEngine
    → PolicyEngine × Result B PolicyViolation
continue (ok a) f e = f a e
continue (err v) f e = (e, err v)

infixl 5 ◌>>=◌ ◌>>◌
abbrev pub ◌>>=◌ {ℓ κ} : {A : Type ℓ} {B : Type κ} → Check A → (A → Check B) → Check B
◌>>=◌ m f e = let (e', r) = m e in continue r f e'

abbrev pub ◌>>◌ {ℓ} : {B : Type ℓ} → Check (Unit {0}) → Check B → Check B
m >> k = m >>= λ _. k

unfoldable pub pass {ℓ} : {A : Type ℓ} → A → Check A
pass a e = (e, ok a)

unfoldable pub record_violation : PolicyEngine → PolicyEngine
record_violation e = record e { violations_count = add_u64 e.violations_count 1 }

-- `record_violation()`, then the error in enforcing mode; the other modes go on.
unfoldable pub violate : PolicyViolation → Check (Unit {0})
unfolding record_violation
violate v e = (record_violation e, if is_enforcing e.policy.mode then err v else ok tt)

unfoldable pub violate_if : Bool → PolicyViolation → Check (Unit {0})
unfolding violate
violate_if b v e = if b then violate v e else (e, ok tt)

-- The eviction loop: from the front, while the age is 60 whole seconds or more.
unfoldable pub evict : ℕ → List ℕ → List ℕ
evict now [] = []
evict now (front ∷ ts) =
    let rest = evict now ts in if leb 60 ((now - front) / 10 ^ 9) then rest else front ∷ ts

abbrev pub or_default : Option (List ℕ) → List ℕ
or_default none = []
or_default (some ts) = ts

abbrev pub with_timestamps : Text → List ℕ → PolicyEngine → PolicyEngine
with_timestamps tool_name ts e = record e { rate_limits = insert tool_name ts e.rate_limits }

unfoldable pub check_rate_limit : ℕ → Text → Check (Unit {0})
unfolding evict violate
check_rate_limit now tool_name e =
    let max_calls = e.policy.limits.max_calls_per_minute in
    let timestamps = evict now (or_default (lookup tool_name e.rate_limits)) in
    if eqb max_calls 0
    then (e, ok tt)
    else if leb max_calls (length timestamps)
    then violate (rate_limit_exceeded tool_name max_calls) (with_timestamps tool_name timestamps e)
    else (with_timestamps tool_name (timestamps ++ now ∷ []) e, ok tt)

unfoldable pub check_output_size : ℕ → Check (Unit {0})
unfolding violate_if
check_output_size byte_len e =
    violate_if (ltb e.policy.limits.max_output_bytes byte_len)
      (output_limit_exceeded e.policy.limits.max_output_bytes) e
