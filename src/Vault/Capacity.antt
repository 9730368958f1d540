-- ===== src/Vault/Capacity.antt =====
-- The bound on held calls (src/vault_lock.rs), when each request is made as a whole.
use intermcp.Prelude.{
  ℕ, ◌≤◌, ◌<◌, arith, Text, Bool, true, false, Option, none, some, List, [], ◌∷◌, text_is_eq,
  HashMap, lookup, length, length-insert, length-remove,
}
use intermcp.Error.{Result, ok, err, FastMcpError}
use intermcp.Json.{Value}
use intermcp.Vault.{
  PendingEntry, TimeLockedVault, max_pending, request, pend, approve, reject, answer, settle,
  settle_with, clean, retain_live, new,
}
use intermcp.Vault.Lifecycle.{Event, requests, approves, rejects, settles, cleans, step, run}

abbrev Fits : TimeLockedVault → Type 0
Fits v = length v.pending ≤ max_pending

length-retain_live :
    (now : ℕ) (m : HashMap Text PendingEntry) → length (retain_live now m) ≤ length m
unfolding retain_live
length-retain_live now [] = omega arith
length-retain_live now ((id, e) ∷ m) = ground (arith, length-retain_live now m)

pend-Fits :
    (now : ℕ) (j tool_name : Text) (arguments : Value) (hash : Result Text FastMcpError)
    (v : TimeLockedVault)
    → length v.pending < max_pending
    → Fits (pend now j tool_name arguments hash v).0
unfolding pend
pend-Fits now j tool_name arguments (ok h) v room = omega (arith, length-insert j _ v.pending, room)
pend-Fits now j tool_name arguments (err e) v room = omega (arith, room)

request-Fits :
    (now : ℕ) (j tool_name : Text) (arguments : Value) (hash : Result Text FastMcpError)
    (v : TimeLockedVault)
    → Fits v
    → Fits (request now j tool_name arguments hash v).0
unfolding request
request-Fits now j tool_name arguments hash v f =
    ground (arith, pend-Fits now j tool_name arguments hash v)

answer-Fits :
    (j : Text) (c : Bool) (o : Option PendingEntry) (v : TimeLockedVault)
    → Fits v
    → Fits (answer j c o v).0
unfolding answer
answer-Fits j c (some e) v f = omega (arith, length-remove j v.pending, f)
answer-Fits j c none v f = f

settle_with-Fits :
    (j : Text) (o : Option Bool) (v : TimeLockedVault) → Fits v → Fits (settle_with j o v).0
unfolding settle_with
settle_with-Fits j (some c) v f = f
settle_with-Fits j none v f = omega (arith, length-remove j v.pending, f)

step-Fits : (e : Event) (v : TimeLockedVault) → Fits v → Fits (step e v)
step-Fits (requests now j tool_name arguments hash) v f =
    request-Fits now j tool_name arguments hash v f
step-Fits (approves j) v f = (unfold approve in answer-Fits j true (lookup j v.pending) v f)
step-Fits (rejects j) v f = (unfold reject in answer-Fits j false (lookup j v.pending) v f)
step-Fits (settles j) v f = (unfold settle in settle_with-Fits j (lookup j v.sent) v f)
step-Fits (cleans now) v f = (unfold clean in omega (arith, length-retain_live now v.pending, f))

run-Fits : (es : List Event) (v : TimeLockedVault) → Fits v → Fits (run es v)
run-Fits [] v f = f
run-Fits (e ∷ es) v f = run-Fits es (step e v) (step-Fits e v f)

-- A vault whose requests are made one at a time never holds more than 256 calls.
pub pending-le-max :
    (protected_tools : List Text) (window_secs : ℕ) (es : List Event)
    → length (run es (new protected_tools window_secs)).pending ≤ max_pending
pending-le-max protected_tools window_secs es =
    run-Fits es (new protected_tools window_secs) (unfold new in omega arith)
