-- ===== src/Vault/Lifecycle.antt =====
-- The life of a held call (src/vault_lock.rs), over sequences of what happens to the vault.
use intermcp.Prelude.{
  ◌⊎◌, ℕ, ◌≡◌, refl, sym, ap, ◌∙◌, arith, Text, Bool, true, false, Option, none, some, List, [],
  ◌∷◌, ◌||◌, ◌==◌, ==_iff, text_is_eq, inl, inr, lookup, lookup-insert, Bool-cases, leb, length,
}
use intermcp.Error.{Result, ok, err, FastMcpError}
use intermcp.Json.{Value}
use intermcp.Vault.{
  is_protected, waiting, saturated, failed, max_pending, PendingEntry, TimeLockedVault, request,
  pend, approve, reject, answer, settle, settle_with, clean,
}

pub data Event : Type 0 where
  requests : ℕ → (id tool_name : Text) → Value → Result Text FastMcpError → Event
  approves rejects settles : (id : Text) → Event
  cleans : ℕ → Event

abbrev pub step : Event → TimeLockedVault → TimeLockedVault
step (requests now id tool_name arguments hash) v = (request now id tool_name arguments hash v).0
step (approves id) v = (approve id v).0
step (rejects id) v = (reject id v).0
step (settles id) v = (settle id v).0
step (cleans now) v = clean now v

abbrev pub run : List Event → TimeLockedVault → TimeLockedVault
run [] v = v
run (e ∷ es) v = run es (step e v)

-- An approval of the identifier is among the events.
abbrev pub has_approval : Text → List Event → Bool
has_approval id [] = false
has_approval id (approves j ∷ es) = j == id || has_approval id es
has_approval id (_ ∷ es) = has_approval id es

-- What a step does to the answers.
pub sent-request :
    (now : ℕ) (id tool_name : Text) (arguments : Value) (hash : Result Text FastMcpError)
    (v : TimeLockedVault)
    → (request now id tool_name arguments hash v).0.sent ≡ v.sent
unfolding request pend
sent-request now id tool_name arguments (ok h) v = ground arith
sent-request now id tool_name arguments (err e) v = ground arith

-- A request for a protected tool never goes on at once.
pub request-protected :
    (now : ℕ) (id tool_name : Text) (arguments : Value) (hash : Result Text FastMcpError)
    (v : TimeLockedVault)
    → is_protected tool_name v ≡ true
    → ((request now id tool_name arguments hash v).1 ≡ waiting id)
      ⊎ ((request now id tool_name arguments hash v).1 ≡ saturated)
      ⊎ ((e : FastMcpError) × ((request now id tool_name arguments hash v).1 ≡ failed e))
unfolding request
request-protected now id tool_name arguments (ok h) v p =
    elim (Bool-cases (leb max_pending (length v.pending))) [
      | inl full ↦ inr (inl (ground arith))
      | inr room ↦ inl (ground arith)
    ]
request-protected now id tool_name arguments (err e) v p =
    elim (Bool-cases (leb max_pending (length v.pending))) [
      | inl full ↦ inr (inl (ground arith))
      | inr room ↦ inr (inr (e, ground arith))
    ]

answer-sent :
    (id j : Text) (b : Bool) (o : Option PendingEntry) (v : TimeLockedVault)
    → lookup j (answer id b o v).0.sent ≡ some true
    → (lookup j v.sent ≡ some true) ⊎ ((id ≡ j) × (b ≡ true))
unfolding answer
answer-sent id j b (some e) v h = ground (arith, lookup-insert id j b v.sent, ==_iff id j)
answer-sent id j b none v h = inl h

settle_with-sent :
    (id : Text) (o : Option Bool) (v : TimeLockedVault) → (settle_with id o v).0.sent ≡ v.sent
unfolding settle_with
settle_with-sent id (some b) v = refl
settle_with-sent id none v = refl

approved_by_step :
    (e : Event) (v : TimeLockedVault) (id : Text)
    → lookup id (step e v).sent ≡ some true
    → (lookup id v.sent ≡ some true) ⊎ (has_approval id (e ∷ []) ≡ true)
approved_by_step (requests now j tool_name arguments hash) v id h =
    inl (ap (lookup id) (sym (sent-request now j tool_name arguments hash v)) ∙ h)
approved_by_step (approves j) v id h =
    elim (answer-sent j id true (lookup j v.pending) v (unfold approve in h)) [
      | inl before ↦ inl before
      | inr (same, _) ↦ inr (ground (arith, ==_iff j id))
    ]
approved_by_step (rejects j) v id h =
    elim (answer-sent j id false (lookup j v.pending) v (unfold reject in h)) [
      | inl before ↦ inl before
      | inr (_, wrong) ↦ ground arith
    ]
approved_by_step (settles j) v id h =
    (unfold settle in inl (ap (lookup id) (sym (settle_with-sent j (lookup j v.sent) v)) ∙ h))
approved_by_step (cleans now) v id h = (unfold clean in inl h)

has_approval_later :
    (e : Event) (es : List Event) (id : Text)
    → has_approval id es ≡ true
    → has_approval id (e ∷ es) ≡ true
has_approval_later (approves j) es id h = ground arith
has_approval_later (requests now j tool_name arguments hash) es id h = h
has_approval_later (rejects j) es id h = h
has_approval_later (settles j) es id h = h
has_approval_later (cleans now) es id h = h

has_approval_here :
    (e : Event) (es : List Event) (id : Text)
    → has_approval id (e ∷ []) ≡ true
    → has_approval id (e ∷ es) ≡ true
has_approval_here (approves j) es id h = ground arith
has_approval_here (requests now j tool_name arguments hash) es id h = ground arith
has_approval_here (rejects j) es id h = ground arith
has_approval_here (settles j) es id h = ground arith
has_approval_here (cleans now) es id h = ground arith

approved_by_run :
    (es : List Event) (v : TimeLockedVault) (id : Text)
    → lookup id (run es v).sent ≡ some true
    → (lookup id v.sent ≡ some true) ⊎ (has_approval id es ≡ true)
approved_by_run [] v id h = inl h
approved_by_run (e ∷ es) v id h = elim (approved_by_run es (step e v) id h) [
  | inr later ↦ inr (has_approval_later e es id later)
  | inl now ↦ elim (approved_by_step e v id now) [
    | inl before ↦ inl before
    | inr this ↦ inr (has_approval_here e es id this)
  ]
]

settle_with-true :
    (id : Text) (o : Option Bool) (v : TimeLockedVault)
    → (settle_with id o v).1 ≡ true
    → o ≡ some true
unfolding settle_with
settle_with-true id (some b) v h = ap (λ x. some x) h
settle_with-true id none v h = ground arith

-- A held call, whose identifier has no answer yet, goes on after its wait only if an approval of
-- its identifier is among what has happened to the vault.
pub settle-has_approval :
    (id : Text) (es : List Event) (v : TimeLockedVault)
    → lookup id v.sent ≡ none
    → (settle id (run es v)).1 ≡ true
    → has_approval id es ≡ true
settle-has_approval id es v fresh h =
    let found = settle_with-true id (lookup id (run es v).sent) (run es v) (unfold settle in h) in
    elim (approved_by_run es v id found) [ inl before ↦ cc | inr approved ↦ approved ]
