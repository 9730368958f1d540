-- ===== src/Error.antt =====
-- src/error.rs: `FastMcpError`. A message stands as a constructor of `Message` that holds the values
-- which the source's format string interpolates; an error of a library carries its text.
use intermcp.Prelude.{ℕ, Text, Bool, true, false, ◌≡◌, refl}

pub data Message : Type 0 where
  -- guardrails.rs
  rate_limit_exceeded infinite_loop repeated_pattern : Text → ℕ → Message
  budget_exceeded : (total budget : ℕ) → Message
  -- hub.rs
  circuit_open circuit_half_open supervisor_stopped : Text → Message
  channel_dropped request_timed_out : Text → Message
  invalid_upstream_name upstream_quarantined : Text → Message
  refusing_tofu : Message
  description_drift schema_drift contract_drift : (upstream tool : Text) → Message
  execution_vetoed : Text → Message
  -- vault_lock.rs
  vault_saturated : Message
  -- smac.rs and receipts.rs
  chain_broken tampered_entry : (index line : ℕ) (expected found : Text) → Message
  json_parse_error : (line : ℕ) → (error : Text) → Message
  integrity_check_failed : Message → Message
  corrupted_receipt : (line : ℕ) → (error : Text) → Message
  sequence_broken : (line expected found : ℕ) → Message
  hash_chain_broken : (line : ℕ) (expected found : Text) → Message
  signature_failed : (line sequence : ℕ) → Message
  checkpoint_missed : ℕ → Text → Message
  -- a text that comes from elsewhere
  other : Text → Message

pub data FastMcpError : Type 0 where
  serialization io invalid_request method_not_found : Message → FastMcpError
  tool_execution tool_not_found internal security_violation : Message → FastMcpError

pub data Result {ℓ κ} (A : Type ℓ) (E : Type κ) : Type (ℓ ⊔ κ) where
  ok : A → Result A E
  err : E → Result A E

abbrev pub is_ok {ℓ κ} : {A : Type ℓ} {E : Type κ} → Result A E → Bool
is_ok (ok a) = true
is_ok (err e) = false

-- `?` on results of one error type.
infixl 5 ◌>>=◌ ◌>>◌
abbrev pub ◌>>=◌ {ℓ κ μ} :
    {A : Type ℓ} {B : Type κ} {E : Type μ} → Result A E → (A → Result B E) → Result B E
ok a >>= f = f a
err e >>= f = err e

abbrev pub ◌>>◌ {ℓ μ} : {B : Type ℓ} {E : Type μ} → Result (Unit {0}) E → Result B E → Result B E
m >> k = m >>= λ _. k

-- `if b { return Err(e); }`
abbrev pub refuse_if {μ} : {E : Type μ} → Bool → E → Result (Unit {0}) E
refuse_if true e = err e
refuse_if false e = ok tt

pub refuse_if-ok {ℓ μ} :
    {B : Type ℓ} {E : Type μ} (b : Bool) (e : E) (k : Result B E) {r : B}
    → (refuse_if b e >> k) ≡ ok r
    → (b ≡ false) × (k ≡ ok r)
refuse_if-ok true e k h = cc
refuse_if-ok false e k h = (refl, h)

pub >>=-ok {ℓ κ μ} :
    {A : Type ℓ} {B : Type κ} {E : Type μ} (m : Result A E) (f : A → Result B E) {r : B}
    → (m >>= f) ≡ ok r
    → (a : A) × (m ≡ ok a) × (f a ≡ ok r)
>>=-ok (ok a) f h = (a, refl, h)
>>=-ok (err e) f h = cc
