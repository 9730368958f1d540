-- ===== src/Receipts/Tests.antt =====
-- Instances for src/receipts.rs: a codec for the lines that is read back, and simple digests.
use intermcp.Error.{security_violation, checkpoint_missed, Result, ok, err, FastMcpError}
use intermcp.Receipts.{
  VerificationSummary, from_summary, verify_receipt_checkpoint, success, ExecutionReceipt,
  SignedReceiptRecord, ReceiptBook, hash_canonical_json, sign,
}
use intermcp.Receipts.Book.{verify_receipt_chain_file, open_book, Execution, record_execution}
use intermcp.Receipts.Book.Chain.{records, IsChain, verify_receipt_chain_file-IsChain}
use intermcp.Receipts.Book.Checkpoint.{truncation_shown}
use intermcp.Receipts.Book.Replay.{record_all, fresh, verify-record_all}
use intermcp.Prelude.{
  arith, some, trim_start, ◌<◌, true, encode, as_bytes, add_u64, ℕ, ◌≡◌, refl, Text, codes, List,
  [], ◌∷◌, length, trim, text_is_eq,
}
use intermcp.Json.{Value, null, empty_object}
use intermcp.Smac.{genesis_hash}
use intermcp.Receipts.TestLines.{print, parse, reads, is_full}

abbrev digest : List ℕ → List ℕ
digest bytes = length bytes ∷ []

abbrev hex : List ℕ → Text
hex bytes = bytes

abbrev canonical : Value → Result (List ℕ) FastMcpError
canonical v = ok (7 ∷ [])

abbrev value_of : ExecutionReceipt → Result Value FastMcpError
value_of r = ok null

abbrev execution : Execution
execution = record {
  now = codes "0";
  session_id = codes "s";
  tool_name = codes "read";
  schema_hash = codes "h";
  input_args = empty_object;
  output_res = null;
  duration_us = 5;
  status = success;
}

abbrev key : List ℕ
key = 1 ∷ 2 ∷ []

abbrev record_of : ℕ → Text → SignedReceiptRecord
record_of sequence prev = record {
  receipt = record {
    version = 1;
    sequence = sequence;
    timestamp_utc = codes "0";
    prev_receipt_hash = prev;
    session_id = codes "s";
    tool_name = codes "read";
    tool_schema_hash = codes "h";
    canonical_input_hash = 1 ∷ [];
    canonical_output_hash = 1 ∷ [];
    execution_duration_us = 5;
    exit_status = success;
  };
  receipt_hash = 1 ∷ [];
  signature_hex = 65 ∷ [];
  signer_id = codes "me";
}

abbrev executions : List Execution
executions = execution ∷ execution ∷ []

-- The book behind the two executions.
abbrev book : ReceiptBook
book = record {
  lines = print (record_of 1 genesis_hash) ∷ print (record_of 2 (1 ∷ [])) ∷ [];
  sequence = 3;
  prev_hash = 1 ∷ [];
  secret_key = key;
  signer_id = codes "me";
}

all_recorded :
    record_all digest hex canonical value_of print parse reads is_full executions
      (fresh digest hex canonical value_of print parse reads is_full key (codes "me"))
    ≡ ok book
unfolding record_execution hash_canonical_json add_u64 as_bytes encode sign
all_recorded = refl

abbrev summary : VerificationSummary
summary = record { count = 2; last_hash = 1 ∷ []; signatures_verified = true }

verify-record_all_example :
    (verify_receipt_chain_file digest hex canonical value_of parse (some key) (some book.lines)
      ≡ ok summary)
    × (open_book digest hex canonical value_of parse (some book.lines) key (codes "me") ≡ ok book)
verify-record_all_example =
    verify-record_all digest hex canonical value_of print parse reads is_full executions key
      (codes "me") book all_recorded (omega arith)

accepted :
    verify_receipt_chain_file digest hex canonical value_of parse (some key) (some book.lines)
    ≡ ok summary
accepted =
    (verify-record_all digest hex canonical value_of print parse reads is_full executions key
      (codes "me") book all_recorded (omega arith)).0

verify_receipt_chain_file-IsChain_example :
    IsChain digest hex canonical value_of parse
      (some key)
      1
      genesis_hash
      (records digest hex canonical value_of parse (some key) book.lines)
      summary.last_hash
    × (summary.count ≡ length (records digest hex canonical value_of parse (some key) book.lines))
verify_receipt_chain_file-IsChain_example =
    verify_receipt_chain_file-IsChain digest hex canonical value_of parse (some key) book.lines
      summary accepted

-- The file without its last line.
abbrev first_line : List Text
first_line = print (record_of 1 genesis_hash) ∷ []

abbrev last_line : List Text
last_line = print (record_of 2 (1 ∷ [])) ∷ []

one_lost : 0 < length (records digest hex canonical value_of parse (some key) last_line)
unfolding print parse trim trim_start
one_lost = omega arith

truncation_shown_example :
    (res : VerificationSummary) × (verify_receipt_chain_file digest hex canonical value_of parse
        (some key)
        (some first_line)
      ≡ ok res)
    × (verify_receipt_checkpoint res (from_summary summary (codes "me"))
        ≡ err (security_violation (checkpoint_missed summary.count summary.last_hash)))
    × (verify_receipt_checkpoint summary (from_summary summary (codes "me")) ≡ ok tt)
truncation_shown_example =
    truncation_shown digest hex canonical value_of parse (some key) first_line last_line summary
      (codes "me") accepted (omega arith) one_lost
