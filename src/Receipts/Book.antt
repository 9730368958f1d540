-- ===== src/Receipts/Book.antt =====
-- src/receipts.rs: the book that signs executions and appends them to its file, and the
-- verification of such a file. `print` and `parse` are the derived conversions of a line.
pub mod Chain
pub mod Entry
pub mod Replay
pub mod Checkpoint
use intermcp.Prelude.{
  ℕ, ◌+◌, ◌%◌, ◌^◌, Text, Bool, true, false, Option, none, some, List, [], ◌∷◌, ◌++◌, ◌==◌,
  text_is_eq, eqb, not, if◌then◌else◌, add_u64, trim, is_empty,
}
use intermcp.Error.{
  Result, ok, err, FastMcpError, invalid_request, security_violation, corrupted_receipt,
  sequence_broken, hash_chain_broken, signature_failed,
}
use intermcp.Json.{Value}
use intermcp.Smac.{genesis_hash}
use intermcp.Receipts.{
  ReceiptStatus, ExecutionReceipt, SignedReceiptRecord, ReceiptBook, VerificationSummary, try,
  hash_canonical_json, sign, verify,
}

-- What an execution is recorded with.
pub record Execution : Type 0 where
  pub now : Text
  pub session_id : Text
  pub tool_name : Text
  pub schema_hash : Text
  pub input_args : Value
  pub output_res : Value
  pub duration_us : ℕ
  pub status : ReceiptStatus

abbrev pub is_given : Option (List ℕ) → Bool
is_given none = false
is_given (some key) = true

module _ (sha256 : List ℕ → List ℕ) (hex : List ℕ → Text)
    (canonicalize_json : Value → Result (List ℕ) FastMcpError)
    (to_value : ExecutionReceipt → Result Value FastMcpError) where
  unfoldable pub receipt_of : Execution → Text → Text → ReceiptBook → ExecutionReceipt
  receipt_of x input_hash output_hash b = record {
    version = 1;
    sequence = b.sequence;
    timestamp_utc = x.now;
    prev_receipt_hash = b.prev_hash;
    session_id = x.session_id;
    tool_name = x.tool_name;
    tool_schema_hash = x.schema_hash;
    canonical_input_hash = input_hash;
    canonical_output_hash = output_hash;
    execution_duration_us = x.duration_us;
    exit_status = x.status;
  }

  module _ (print : SignedReceiptRecord → Text) where
    append :
        ReceiptBook
        → Result SignedReceiptRecord FastMcpError
        → ReceiptBook × Result SignedReceiptRecord FastMcpError
    append b (ok s) = (
      record b {
        lines = b.lines ++ print s ∷ [];
        prev_hash = s.receipt_hash;
        sequence = add_u64 b.sequence 1;
      },
      ok s,
    )
    append b (err e) = (b, err e)

    unfoldable pub signed_execution :
        Execution → ReceiptBook → Result SignedReceiptRecord FastMcpError
    unfolding receipt_of sign
    signed_execution x b =
        try (hash_canonical_json sha256 hex canonicalize_json x.input_args) (λ input_hash.
          try (hash_canonical_json sha256 hex canonicalize_json x.output_res) (λ output_hash.
            sign sha256 hex canonicalize_json to_value b.secret_key b.signer_id
              (receipt_of x input_hash output_hash b)))

    unfoldable pub record_execution :
        Execution → ReceiptBook → ReceiptBook × Result SignedReceiptRecord FastMcpError
    unfolding append signed_execution
    record_execution x b = append b (signed_execution x b)

  module _ (parse : Text → Result SignedReceiptRecord Text) (secret_key : Option (List ℕ)) where
    signature_verdict :
        Result Bool FastMcpError
        → SignedReceiptRecord
        → ℕ
        → Result VerificationSummary FastMcpError
        → Result VerificationSummary FastMcpError
    signature_verdict (ok true) s line rest = rest
    signature_verdict (ok false) s line rest =
        err (security_violation (signature_failed line s.receipt.sequence))
    signature_verdict (err e) s line rest = err e

    -- The checks on one record, then the rest of the file.
    check_record :
        SignedReceiptRecord
        → (line expected_seq : ℕ) → (expected_prev_hash : Text)
        → Result VerificationSummary FastMcpError
        → Result VerificationSummary FastMcpError
    check_record s line expected_seq expected_prev_hash rest =
        if not (eqb s.receipt.sequence expected_seq)
        then err (security_violation (sequence_broken line expected_seq s.receipt.sequence))
        else if not (s.receipt.prev_receipt_hash == expected_prev_hash)
        then err (
            security_violation
              (hash_chain_broken line expected_prev_hash s.receipt.prev_receipt_hash))
        else signature_verdict (verify sha256 hex canonicalize_json to_value secret_key s) s line
            rest

    pub check_line :
        Result SignedReceiptRecord Text
        → (line expected_seq : ℕ) → (expected_prev_hash : Text)
        → (Text → Result VerificationSummary FastMcpError)
        → Result VerificationSummary FastMcpError
    check_line (ok s) line expected_seq expected_prev_hash rest =
        check_record s line expected_seq expected_prev_hash (rest s.receipt_hash)
    check_line (err e) line expected_seq expected_prev_hash rest =
        err (invalid_request (corrupted_receipt line e))

    -- The loop over the lines: `line` counts them from one.
    pub verify_from :
        (line expected_seq total_verified : ℕ)
        → (expected_prev_hash : Text) → List Text
        → Result VerificationSummary FastMcpError
    verify_from line expected_seq total_verified expected_prev_hash [] = ok (record {
      count = total_verified;
      last_hash = expected_prev_hash;
      signatures_verified = is_given secret_key;
    })
    verify_from line expected_seq total_verified expected_prev_hash (l ∷ ls) =
        elim (is_empty (trim l)) [
          | true ↦ verify_from (line + 1) expected_seq total_verified expected_prev_hash ls
          | false ↦
              check_line (parse (trim l)) line expected_seq expected_prev_hash (λ hash.
                verify_from (line + 1) (add_u64 expected_seq 1) (total_verified + 1) hash ls)
        ]

    -- A file that is not there is verified as one without lines.
    unfoldable pub verify_receipt_chain_file :
        Option (List Text) → Result VerificationSummary FastMcpError
    unfolding verify_from check_line check_record signature_verdict verify
    verify_receipt_chain_file none =
        ok (record {
          count = 0;
          last_hash = genesis_hash;
          signatures_verified = is_given secret_key;
        })
    verify_receipt_chain_file (some ls) = verify_from 1 1 0 genesis_hash ls

  module _ (parse : Text → Result SignedReceiptRecord Text) where
    abbrev lines_of : Option (List Text) → List Text
    lines_of none = []
    lines_of (some ls) = ls

    resume :
        List Text
        → List ℕ
        → Text
        → Result VerificationSummary FastMcpError
        → Result ReceiptBook FastMcpError
    resume ls secret_key signer_id (ok verified) = ok (record {
      lines = ls;
      sequence = (verified.count + 1) % 2 ^ 64;
      prev_hash = verified.last_hash;
      secret_key = secret_key;
      signer_id = signer_id;
    })
    resume ls secret_key signer_id (err e) = err e

    -- `ReceiptBook::new` on a file with these lines, or none.
    unfoldable pub open_book : Option (List Text) → List ℕ → Text → Result ReceiptBook FastMcpError
    unfolding resume verify_receipt_chain_file
    open_book file secret_key signer_id =
        resume (lines_of file) secret_key signer_id
          (verify_receipt_chain_file parse (some secret_key) file)
