-- ===== src/Vault/Tests.antt =====
-- Runs and instances for src/vault_lock.rs.
use intermcp.Prelude.{
  text_eq, starts_with, to_ascii_lowercase, contains, eq_ignore_ascii_case, ◌≡◌, ◌≤◌, refl, codes,
  List, [], ◌∷◌, none, true, false, length, lookup, insert, text_is_eq,
}
use intermcp.Vault.{
  is_sensitive, TimeLockedVault, new, request, approve, reject, settle, safe_display_arguments,
  redacted, max_pending,
}
use intermcp.Error.{ok}
use intermcp.Json.{Value, object, field, end, string, null, array, cons, nil}
use intermcp.Vault.Redaction.{HidesSecrets, safe_display_arguments-HidesSecrets}
use intermcp.Vault.Lifecycle.{
  Event, requests, approves, cleans, run, has_approval, settle-has_approval,
}
use intermcp.Vault.Answers.{approve-once}
use intermcp.Vault.Capacity.{pending-le-max}

abbrev arguments : Value
arguments = object (
    field (codes "Api-Key") (string (codes "k"))
      (field (codes "path") (array (cons (object (field (codes "token") null end)) nil)) end))

arguments_shown :
    safe_display_arguments arguments
    ≡ object (
        field (codes "Api-Key") redacted (
          field
            (codes "path")
            (array (cons (object (field (codes "token") redacted end)) nil))
            end))
unfolding safe_display_arguments is_sensitive contains starts_with to_ascii_lowercase text_eq
arguments_shown = refl

safe_display_arguments-HidesSecrets_example : HidesSecrets (safe_display_arguments arguments)
safe_display_arguments-HidesSecrets_example = safe_display_arguments-HidesSecrets arguments

abbrev start : TimeLockedVault
start = new (codes "deploy" ∷ []) 30

abbrev asked : List Event
asked = requests 5 (codes "7f") (codes "Deploy") arguments (ok (codes "h")) ∷ []

abbrev held : TimeLockedVault
held = run asked start

held_approved : (approve (codes "7f") held).1 ≡ true
unfolding approve request new eq_ignore_ascii_case to_ascii_lowercase text_eq insert lookup
held_approved = refl

held_rejected : (reject (codes "7f") held).1 ≡ true
unfolding reject request new eq_ignore_ascii_case to_ascii_lowercase text_eq insert lookup
held_rejected = refl

settled : (settle (codes "7f") (run (approves (codes "7f") ∷ []) held)).1 ≡ true
unfolding settle approve request new eq_ignore_ascii_case to_ascii_lowercase text_eq insert lookup
settled = refl

fresh : lookup (codes "7f") held.sent ≡ none
unfolding request new eq_ignore_ascii_case to_ascii_lowercase text_eq lookup
fresh = refl

settle-has_approval_example : has_approval (codes "7f") (approves (codes "7f") ∷ []) ≡ true
settle-has_approval_example =
    settle-has_approval (codes "7f") (approves (codes "7f") ∷ []) held fresh settled

approve-once_example :
    ((settle (codes "7f") (run (cleans 9 ∷ []) (approve (codes "7f") held).0)).1 ≡ true)
    × ((approve (codes "7f") (run (cleans 9 ∷ []) (approve (codes "7f") held).0)).1 ≡ false)
    × ((reject (codes "7f") (run (cleans 9 ∷ []) (approve (codes "7f") held).0)).1 ≡ false)
approve-once_example = approve-once (codes "7f") (cleans 9 ∷ []) held held_approved tt

pending-le-max_example : length (run asked (new (codes "deploy" ∷ []) 30)).pending ≤ max_pending
pending-le-max_example = pending-le-max (codes "deploy" ∷ []) 30 asked
