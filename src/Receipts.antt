-- ===== src/Receipts.antt =====
-- src/receipts.rs: signed receipts of executions in a hash chain. The file is the list of its lines,
-- or none before it is there; writes are taken to succeed. SHA-256, hexadecimal, canonical JSON, and
-- the derived conversions of records to and from JSON are parameters.
pub mod Book
mod TestLines
mod Tests
use Prim.Native.Nat.{bit_xor}
use intermcp.Prelude.{
  ℕ, zero, suc, ◌+◌, ◌%◌, ◌^◌, Text, codes, Bool, true, false, Option, none, some, List, [], ◌∷◌,
  ◌++◌, ◌==◌, text_is_eq, eqb, ltb, ◌||◌, ◌&&◌, not, if◌then◌else◌, map, add_u64, as_bytes, trim,
  is_empty, length,
}
use intermcp.Error.{
  Result, ok, err, FastMcpError, Message, invalid_request, security_violation, corrupted_receipt,
  sequence_broken, hash_chain_broken, signature_failed, checkpoint_missed,
}
use intermcp.Json.{Value}
use intermcp.Smac.{genesis_hash}

pub data ReceiptStatus : Type 0 where
  success tool_error policy_vetoed timed_out : ReceiptStatus

pub record ExecutionReceipt : Type 0 where
  pub version : ℕ
  pub sequence : ℕ
  pub timestamp_utc : Text
  pub prev_receipt_hash : Text
  pub session_id : Text
  pub tool_name : Text
  pub tool_schema_hash : Text
  pub canonical_input_hash : Text
  pub canonical_output_hash : Text
  pub execution_duration_us : ℕ
  pub exit_status : ReceiptStatus

pub record SignedReceiptRecord : Type 0 where
  pub receipt : ExecutionReceipt
  pub receipt_hash : Text
  pub signature_hex : Text
  pub signer_id : Text

-- The book, with the lines of its file.
pub record ReceiptBook : Type 0 where
  pub lines : List Text
  pub sequence : ℕ
  pub prev_hash : Text
  pub secret_key : List ℕ
  pub signer_id : Text

pub record VerificationSummary : Type 0 where
  pub count : ℕ
  pub last_hash : Text
  pub signatures_verified : Bool

pub record ReceiptCheckpoint : Type 0 where
  pub sequence : ℕ
  pub last_receipt_hash : Text
  pub signer_id : Text

abbrev pub from_summary : VerificationSummary → Text → ReceiptCheckpoint
from_summary summary signer_id = record {
  sequence = summary.count % 2 ^ 64;
  last_receipt_hash = summary.last_hash;
  signer_id = signer_id;
}

unfoldable pub verify_receipt_checkpoint :
    VerificationSummary → ReceiptCheckpoint → Result (Unit {0}) FastMcpError
verify_receipt_checkpoint summary checkpoint =
    if not (eqb (summary.count % 2 ^ 64) checkpoint.sequence)
      || not (summary.last_hash == checkpoint.last_receipt_hash)
    then err
        (security_violation (checkpoint_missed checkpoint.sequence checkpoint.last_receipt_hash))
    else ok tt

-- `?`
abbrev pub try {ℓ κ} :
    {A : Type ℓ} {B : Type κ}
    → Result A FastMcpError
    → (A → Result B FastMcpError)
    → Result B FastMcpError
try (ok a) f = f a
try (err e) f = err e

-- The first `n` bytes of `key`, with zeros for those that it does not have.
unfoldable pub padded : ℕ → List ℕ → List ℕ
padded zero key = []
padded (suc n) [] = 0 ∷ padded n []
padded (suc n) (b ∷ key) = b ∷ padded n key

module _ (sha256 : List ℕ → List ℕ) (hex : List ℕ → Text) where
  unfoldable pub key_block : List ℕ → List ℕ
  unfolding padded
  key_block key = padded 64 (if ltb 64 (length key) then sha256 key else key)

  unfoldable pub hmac_sha256 : List ℕ → List ℕ → Text
  unfolding key_block
  hmac_sha256 key message =
      let k = key_block key in
      let ipad = map (λ b. bit_xor 0x36 b) k in
      let opad = map (λ b. bit_xor 0x5C b) k in hex (sha256 (opad ++ sha256 (ipad ++ message)))

  module _ (canonicalize_json : Value → Result (List ℕ) FastMcpError) where
    unfoldable pub hash_canonical_json : Value → Result Text FastMcpError
    hash_canonical_json value = try (canonicalize_json value) (λ bytes. ok (hex (sha256 bytes)))

    module _ (to_value : ExecutionReceipt → Result Value FastMcpError) where
      unfoldable pub compute_hash : ExecutionReceipt → Result Text FastMcpError
      unfolding hash_canonical_json
      compute_hash r = try (to_value r) hash_canonical_json

      unfoldable pub sign :
          List ℕ → Text → ExecutionReceipt → Result SignedReceiptRecord FastMcpError
      unfolding compute_hash hmac_sha256
      sign secret_key signer_id r = try (compute_hash r) (λ receipt_hash. ok (record {
        receipt = r;
        receipt_hash = receipt_hash;
        signature_hex = hmac_sha256 secret_key (as_bytes receipt_hash);
        signer_id = signer_id;
      }))

      is_signed : Option (List ℕ) → SignedReceiptRecord → Bool
      is_signed none s = true
      is_signed (some key) s =
          as_bytes s.signature_hex == as_bytes (hmac_sha256 key (as_bytes s.receipt_hash))

      unfoldable pub verify : Option (List ℕ) → SignedReceiptRecord → Result Bool FastMcpError
      unfolding compute_hash is_signed
      verify secret_key s = try (compute_hash s.receipt) (λ computed_hash.
          ok (if computed_hash == s.receipt_hash then is_signed secret_key s else false))
