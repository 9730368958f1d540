-- ===== src/Vault.antt =====
-- src/vault_lock.rs: the vault that holds calls of protected tools until a supervisor answers.
-- `check_or_wait` is cut at its wait: `request` is what it does before, `settle` what it does after.
-- Instants and durations are nanoseconds. The random identifier and the hash of the canonical JSON
-- of the arguments are given with the call.
pub mod Redaction
pub mod Lifecycle
pub mod Answers
pub mod Capacity
mod Tests
use intermcp.Prelude.{
  ◌*◌, ℕ, ◌+◌, ◌-◌, ◌/◌, ◌^◌, Text, codes, Bool, true, false, Option, none, some, List, [], ◌∷◌,
  ltb, leb, eqb, ◌==◌, text_is_eq, if◌then◌else◌, any, map, HashMap, lookup, insert, remove, length,
  contains, to_ascii_lowercase, eq_ignore_ascii_case,
}
use intermcp.Error.{Result, ok, err, FastMcpError, security_violation, vault_saturated}
use intermcp.Json.{
  Value, null, bool, number, string, array, object, Items, nil, cons, Fields, end, field,
  insert_field,
}

-- `safe_display_arguments`
abbrev pub sensitive_keys : List Text
sensitive_keys =
    codes "api_key"
    ∷ codes "apikey"
    ∷ codes "secret"
    ∷ codes "token"
    ∷ codes "password"
    ∷ codes "private_key"
    ∷ codes "privatekey"
    ∷ codes "authorization"
    ∷ codes "cookie"
    ∷ codes "credential"
    ∷ codes "mnemonic"
    ∷ codes "seed"
    ∷ codes "client_secret"
    ∷ codes "refresh_token"
    ∷ codes "access_token"
    ∷ []

-- `key.to_ascii_lowercase().replace('-', "_")`
unfoldable pub key_lower : Text → Text
unfolding to_ascii_lowercase
key_lower key = map (λ c. if eqb c b'-' then b'_' else c) (to_ascii_lowercase key)

unfoldable pub is_sensitive : Text → Bool
unfolding key_lower contains
is_sensitive key = any (λ needle. contains (key_lower key) needle) sensitive_keys

abbrev pub redacted : Value
redacted = string (codes "[REDACTED]")

unfoldable mutual
  unfolding is_sensitive insert_field

  pub safe_display_arguments : Value → Value
  safe_display_arguments (object fs) = object (safe_fields fs end)
  safe_display_arguments (array vs) = array (safe_items vs)
  safe_display_arguments null = null
  safe_display_arguments (bool b) = bool b
  safe_display_arguments (number n) = number n
  safe_display_arguments (string s) = string s

  pub safe_items : Items → Items
  safe_items nil = nil
  safe_items (cons v vs) = cons (safe_display_arguments v) (safe_items vs)

  -- The loop over the entries, with the map that is built.
  pub safe_fields : Fields → Fields → Fields
  safe_fields end out = out
  safe_fields (field k v fs) out =
      let value = safe_display_arguments v in
      safe_fields fs (insert_field k (if is_sensitive k then redacted else value) out)

pub record PendingEntry : Type 0 where
  pub tool : Text
  pub arguments : Value
  pub argument_hash : Text
  pub expires_at : ℕ

pub record PendingActionSummary : Type 0 where
  pub id : Text
  pub tool : Text
  pub arguments : Value
  pub argument_hash : Text
  pub remaining_secs : ℕ

-- The vault, with the answers that were sent to the channels of the waiting calls.
pub record TimeLockedVault : Type 0 where
  pub protected_tools : List Text
  pub window : ℕ
  pub pending : HashMap Text PendingEntry
  pub sent : HashMap Text Bool

abbrev pub max_pending : ℕ
max_pending = 256

unfoldable pub new : List Text → ℕ → TimeLockedVault
new protected_tools window_secs = record {
  protected_tools = protected_tools;
  window = window_secs * 10 ^ 9;
  pending = [];
  sent = [];
}

unfoldable pub is_protected : Text → TimeLockedVault → Bool
unfolding eq_ignore_ascii_case
is_protected tool_name v = any (λ t. eq_ignore_ascii_case t tool_name) v.protected_tools

-- What the head of `check_or_wait` decides.
pub data Request : Type 0 where
  unprotected saturated : Request
  failed : FastMcpError → Request
  waiting : (id : Text) → Request

pend :
    ℕ → Text → Text → Value → Result Text FastMcpError → TimeLockedVault → TimeLockedVault × Request
pend now id tool_name arguments (ok argument_hash) v = (
  record v {
    pending =
        insert id
          (record {
            tool = tool_name;
            arguments = safe_display_arguments arguments;
            argument_hash = argument_hash;
            expires_at = now + v.window;
          })
          v.pending;
  },
  waiting id,
)
pend now id tool_name arguments (err e) v = (v, failed e)

-- `argument_hash` is `hash_arguments(arguments)`.
unfoldable pub request :
    ℕ → Text → Text → Value → Result Text FastMcpError → TimeLockedVault → TimeLockedVault × Request
unfolding is_protected pend
request now id tool_name arguments argument_hash v =
    if is_protected tool_name v
    then (if leb max_pending (length v.pending)
        then (v, saturated)
        else pend now id tool_name arguments argument_hash v)
    else (v, unprotected)

answer : Text → Bool → Option PendingEntry → TimeLockedVault → TimeLockedVault × Bool
answer id approved (some entry) v =
    (record v { pending = remove id v.pending; sent = insert id approved v.sent }, true)
answer id approved none v = (v, false)

unfoldable pub approve : Text → TimeLockedVault → TimeLockedVault × Bool
unfolding answer
approve id v = answer id true (lookup id v.pending) v

unfoldable pub reject : Text → TimeLockedVault → TimeLockedVault × Bool
unfolding answer
reject id v = answer id false (lookup id v.pending) v

settle_with : Text → Option Bool → TimeLockedVault → TimeLockedVault × Bool
settle_with id (some approved) v = (v, approved)
settle_with id none v = (record v { pending = remove id v.pending }, false)

-- The end of the wait: the answer that arrived, or none when the window has passed or the sender
-- is gone.
unfoldable pub settle : Text → TimeLockedVault → TimeLockedVault × Bool
unfolding settle_with
settle id v = settle_with id (lookup id v.sent) v

-- `retain` on the entries that have not expired.
unfoldable pub retain_live : ℕ → HashMap Text PendingEntry → HashMap Text PendingEntry
retain_live now [] = []
retain_live now ((id, e) ∷ m) =
    let rest = retain_live now m in if ltb now e.expires_at then (id, e) ∷ rest else rest

-- The task that runs every 10 seconds.
unfoldable pub clean : ℕ → TimeLockedVault → TimeLockedVault
unfolding retain_live
clean now v = record v { pending = retain_live now v.pending }

unfoldable pub list_pending : ℕ → TimeLockedVault → List PendingActionSummary
unfolding retain_live
list_pending now v =
    map
      (λ (p : Text × PendingEntry). record {
        id = p.0;
        tool = p.1.tool;
        arguments = p.1.arguments;
        argument_hash = p.1.argument_hash;
        remaining_secs = (p.1.expires_at - now) / 10 ^ 9;
      })
      (retain_live now v.pending)
