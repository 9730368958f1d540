-- ===== src/Policy/Tests.antt =====
-- Runs and instances for src/policy.rs. The lower case mapping is the one on ASCII.
use intermcp.Prelude.{
  text_eq, starts_with, contains, ◌≡◌, ◌≤◌, ◌⊎◌, refl, codes, [], ◌∷◌, length, true, arith,
  to_ascii_lowercase, trim, All,
}
use intermcp.Error.{ok}
use intermcp.Policy.Engine.{DeclarativePolicy, enforcing, default_limits, new, allow}
use intermcp.Policy.Shell.{check_shell, check_shell-allow, is_listed, IsAbsent}
use intermcp.Policy.Window.{accepted, live, accepted-le-max_calls}

abbrev policy : DeclarativePolicy
policy = record {
  mode = enforcing;
  filesystem = record { read_only = []; read_write = []; denied = [] };
  shell = record {
    allowed_binaries = codes "git" ∷ [];
    blocked_patterns = codes "rm -rf" ∷ [];
    require_approval = codes "push" ∷ [];
  };
  limits = default_limits;
}

git_allowed :
    check_shell to_ascii_lowercase (codes " Git") (codes "git log") (new policy)
    ≡ (new policy, ok allow)
unfolding check_shell new to_ascii_lowercase trim contains starts_with text_eq
git_allowed = refl

check_shell-allow_example :
    (new policy ≡ new policy)
    × (((new policy).policy.shell.allowed_binaries ≡ [])
        ⊎ (is_listed to_ascii_lowercase
              (to_ascii_lowercase (trim (codes " Git")))
              (new policy).policy.shell.allowed_binaries
            ≡ true))
    × All
        (IsAbsent to_ascii_lowercase (to_ascii_lowercase (codes "git log")))
        (new policy).policy.shell.blocked_patterns
    × All
        (IsAbsent to_ascii_lowercase (to_ascii_lowercase (codes "git log")))
        (new policy).policy.shell.require_approval
check_shell-allow_example =
    check_shell-allow to_ascii_lowercase (codes " Git") (codes "git log") (new policy) (new policy)
      (unfold new in refl) git_allowed

accepted-le-max_calls_example :
    length
      (live 4 (accepted (codes "read") ((1, codes "read") ∷ (2, codes "read") ∷ []) (new policy)))
    ≤ policy.limits.max_calls_per_minute
accepted-le-max_calls_example =
    accepted-le-max_calls policy 4 (codes "read") ((1, codes "read") ∷ (2, codes "read") ∷ []) refl
      (omega arith) (omega arith, (omega arith, tt))
