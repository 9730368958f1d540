-- ===== src/Vault/Answers.antt =====
-- A held call is answered once (src/vault_lock.rs).
use intermcp.Prelude.{
  ℕ, ◌≡◌, refl, arith, Text, Bool, true, false, Option, none, some, List, [], ◌∷◌, leb, ◌==◌,
  ==_iff, ==_refl, text_is_eq, Bool-cases, inl, inr, HashMap, lookup, length, lookup-insert,
  lookup-remove,
}
use intermcp.Error.{Result, ok, err, FastMcpError}
use intermcp.Json.{Value}
use intermcp.Vault.{
  PendingEntry, TimeLockedVault, max_pending, request, pend, approve, reject, answer, settle,
  settle_with, clean, retain_live, is_protected,
}
use intermcp.Vault.Lifecycle.{Event, requests, approves, rejects, settles, cleans, run}

-- Nothing asks for a new wait under the identifier.
abbrev pub NoRequest : Text → List Event → Type 0
NoRequest id [] = Unit
NoRequest id (requests now j tool_name arguments hash ∷ es) = ((j == id) ≡ false) × NoRequest id es
NoRequest id (_ ∷ es) = NoRequest id es

abbrev IsAnswered : Text → Bool → TimeLockedVault → Type 0
IsAnswered id b v = (lookup id v.pending ≡ none) × (lookup id v.sent ≡ some b)

pend-IsAnswered :
    (now : ℕ) (j tool_name : Text) (arguments : Value) (hash : Result Text FastMcpError) (id : Text)
    (b : Bool) (v : TimeLockedVault)
    → (j == id) ≡ false
    → IsAnswered id b v
    → IsAnswered id b (pend now j tool_name arguments hash v).0
unfolding pend
pend-IsAnswered now j tool_name arguments (ok h) id b v d (p, s) = (rw (lookup-insert, d) p, s)
pend-IsAnswered now j tool_name arguments (err e) id b v d a = a

answer-IsAnswered :
    (j : Text) (c : Bool) (o : Option PendingEntry) (id : Text) (b : Bool) (v : TimeLockedVault)
    → lookup j v.pending ≡ o
    → IsAnswered id b v
    → IsAnswered id b (answer j c o v).0
unfolding answer
answer-IsAnswered j c (some e) id b v look (p, s) = (
  ground (arith, lookup-remove j id v.pending),
  ground (arith, lookup-insert j id c v.sent, ==_iff j id),
)
answer-IsAnswered j c none id b v look a = a

settle_with-IsAnswered :
    (j : Text) (o : Option Bool) (id : Text) (b : Bool) (v : TimeLockedVault)
    → IsAnswered id b v
    → IsAnswered id b (settle_with j o v).0
unfolding settle_with
settle_with-IsAnswered j (some c) id b v a = a
settle_with-IsAnswered j none id b v (p, s) = (ground (arith, lookup-remove j id v.pending), s)

retain_live-absent :
    (now : ℕ) (id : Text) (m : HashMap Text PendingEntry)
    → lookup id m ≡ none
    → lookup id (retain_live now m) ≡ none
unfolding retain_live lookup
retain_live-absent now id [] h = refl
retain_live-absent now id ((j, e) ∷ m) h = ground (arith, retain_live-absent now id m)

request-IsAnswered :
    (now : ℕ) (j tool_name : Text) (arguments : Value) (hash : Result Text FastMcpError) (id : Text)
    (b : Bool) (v : TimeLockedVault)
    → (j == id) ≡ false
    → IsAnswered id b v
    → IsAnswered id b (request now j tool_name arguments hash v).0
unfolding request
request-IsAnswered now j tool_name arguments hash id b v d a =
    elim (Bool-cases (is_protected tool_name v)) [
      | inr free ↦ rw free a
      | inl guarded ↦ elim (Bool-cases (leb max_pending (length v.pending))) [
        | inl full ↦ rw (guarded, full) a
        | inr room ↦ rw (guarded, room) (pend-IsAnswered now j tool_name arguments hash id b v d a)
      ]
    ]

run-IsAnswered :
    (es : List Event) (id : Text) (b : Bool) (v : TimeLockedVault)
    → NoRequest id es
    → IsAnswered id b v
    → IsAnswered id b (run es v)
run-IsAnswered [] id b v q a = a
run-IsAnswered (requests now j tool_name arguments hash ∷ es) id b v (d, q) a =
    run-IsAnswered es id b _ q (request-IsAnswered now j tool_name arguments hash id b v d a)
run-IsAnswered (approves j ∷ es) id b v q a =
    run-IsAnswered es id b _ q
      (unfold approve in answer-IsAnswered j true (lookup j v.pending) id b v refl a)
run-IsAnswered (rejects j ∷ es) id b v q a =
    run-IsAnswered es id b _ q
      (unfold reject in answer-IsAnswered j false (lookup j v.pending) id b v refl a)
run-IsAnswered (settles j ∷ es) id b v q a =
    run-IsAnswered es id b _ q
      (unfold settle in settle_with-IsAnswered j (lookup j v.sent) id b v a)
run-IsAnswered (cleans now ∷ es) id b v q (p, s) =
    run-IsAnswered es id b _ q (unfold clean in (retain_live-absent now id v.pending p, s))

answer-true :
    (id : Text) (b : Bool) (o : Option PendingEntry) (v : TimeLockedVault)
    → (answer id b o v).1 ≡ true
    → IsAnswered id b (answer id b o v).0
unfolding answer
answer-true id b (some e) v h = (
  ground (arith, lookup-remove id id v.pending, ==_refl id),
  ground (arith, lookup-insert id id b v.sent, ==_refl id),
)
answer-true id b none v h = ground arith

answered_end :
    (id : Text) (b : Bool) (v : TimeLockedVault)
    → IsAnswered id b v
    → ((settle id v).1 ≡ b) × ((approve id v).1 ≡ false) × ((reject id v).1 ≡ false)
unfolding settle settle_with approve reject answer
answered_end id b v (p, s) = (rw s refl, rw p refl, rw p refl)

-- Once an approval has been taken, whatever follows except a new wait under the same identifier,
-- the wait ends with the approval, and every further approval or rejection is turned down.
pub approve-once :
    (id : Text) (es : List Event) (v : TimeLockedVault)
    → (approve id v).1 ≡ true
    → NoRequest id es
    → ((settle id (run es (approve id v).0)).1 ≡ true)
      × ((approve id (run es (approve id v).0)).1 ≡ false)
      × ((reject id (run es (approve id v).0)).1 ≡ false)
approve-once id es v h q = answered_end id true (run es (approve id v).0) (
    run-IsAnswered es id true (approve id v).0 q
      (unfold approve in answer-true id true (lookup id v.pending) v (unfold approve in h)))

-- Once a rejection has been taken, whatever follows except a new wait under the same identifier,
-- the wait ends without approval, and every further approval or rejection is turned down.
pub reject-once :
    (id : Text) (es : List Event) (v : TimeLockedVault)
    → (reject id v).1 ≡ true
    → NoRequest id es
    → ((settle id (run es (reject id v).0)).1 ≡ false)
      × ((approve id (run es (reject id v).0)).1 ≡ false)
      × ((reject id (run es (reject id v).0)).1 ≡ false)
reject-once id es v h q = answered_end id false (run es (reject id v).0) (
    run-IsAnswered es id false (reject id v).0 q
      (unfold reject in answer-true id false (lookup id v.pending) v (unfold reject in h)))
