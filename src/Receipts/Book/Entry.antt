-- ===== src/Receipts/Book/Entry.antt =====
-- src/receipts.rs: what `record_execution` leaves in the book.
use intermcp.Prelude.{ℕ, ◌≡◌, ◌⊎◌, inl, inr, refl, Text, as_bytes, List, [], ◌∷◌, ◌++◌}
use intermcp.Error.{Result, ok, err, FastMcpError}
use intermcp.Json.{Value}
use intermcp.Receipts.{
  ReceiptStatus, ExecutionReceipt, SignedReceiptRecord, ReceiptBook, try, hash_canonical_json,
  compute_hash, sign, hmac_sha256,
}
use intermcp.Receipts.Book.{Execution, receipt_of, record_execution, signed_execution, append}

module _ (sha256 : List ℕ → List ℕ) (hex : List ℕ → Text)
    (canonicalize_json : Value → Result (List ℕ) FastMcpError)
    (to_value : ExecutionReceipt → Result Value FastMcpError)
    (print : SignedReceiptRecord → Text) where
  abbrev hash_json : Value → Result Text FastMcpError
  hash_json = hash_canonical_json sha256 hex canonicalize_json

  abbrev hash_receipt : ExecutionReceipt → Result Text FastMcpError
  hash_receipt = compute_hash sha256 hex canonicalize_json to_value

  -- One line more, of a receipt that names the tool, the status and the hashes of input and output;
  -- or nothing, when one of the three hashes fails.
  abbrev pub IsNoted : Text → ReceiptStatus → Value → Value → ReceiptBook → ReceiptBook → Type 0
  IsNoted tool_name status input output b b' =
      ((s : SignedReceiptRecord) × (b'.lines ≡ b.lines ++ print s ∷ [])
        × (s.receipt.tool_name ≡ tool_name)
        × (s.receipt.exit_status ≡ status)
        × (hash_json input ≡ ok s.receipt.canonical_input_hash)
        × (hash_json output ≡ ok s.receipt.canonical_output_hash)
        × (hash_receipt s.receipt ≡ ok s.receipt_hash)
        × (b'.prev_hash ≡ s.receipt_hash))
      ⊎ ((e : FastMcpError) × (b' ≡ b)
          × ((hash_json input ≡ err e)
              ⊎ (hash_json output ≡ err e)
              ⊎ ((r : ExecutionReceipt) × (hash_receipt r ≡ err e))))

  abbrev signed : Execution → ReceiptBook → Text → Text → Text → SignedReceiptRecord
  signed x b input_hash output_hash h = record {
    receipt = receipt_of sha256 hex canonicalize_json to_value x input_hash output_hash b;
    receipt_hash = h;
    signature_hex = hmac_sha256 sha256 hex b.secret_key (as_bytes h);
    signer_id = b.signer_id;
  }

  signed_note :
      (x : Execution) (b : ReceiptBook) (input_hash output_hash : Text)
      (h : Result Text FastMcpError)
      → hash_json x.input_args ≡ ok input_hash
      → hash_json x.output_res ≡ ok output_hash
      → hash_receipt (receipt_of sha256 hex canonicalize_json to_value x input_hash output_hash b)
        ≡ h
      → IsNoted x.tool_name x.status x.input_args x.output_res b
          (append sha256 hex canonicalize_json to_value print b (
            sign sha256 hex canonicalize_json to_value b.secret_key b.signer_id
              (receipt_of sha256 hex canonicalize_json to_value x input_hash output_hash b))).0
  unfolding append sign receipt_of
  signed_note x b i o (ok h) input output hashed =
      rw hashed (inl (signed x b i o h, refl, refl, refl, input, output, hashed, refl))
  signed_note x b i o (err e) input output hashed =
      rw hashed (
        inr (e, refl, inr (inr (receipt_of sha256 hex canonicalize_json to_value x i o b, hashed))))

  note :
      (x : Execution) (b : ReceiptBook) (i o : Result Text FastMcpError)
      → hash_json x.input_args ≡ i
      → hash_json x.output_res ≡ o
      → IsNoted x.tool_name x.status x.input_args x.output_res b
          (append sha256 hex canonicalize_json to_value print b (
            try i (λ input_hash. try o (λ output_hash.
              sign sha256 hex canonicalize_json to_value b.secret_key b.signer_id
                (receipt_of sha256 hex canonicalize_json to_value x input_hash output_hash b))))).0
  unfolding append
  note x b (err e) o input output = inr (e, refl, inl input)
  note x b (ok i) (err e) input output = inr (e, refl, inr (inl output))
  note x b (ok i) (ok o) input output = signed_note x b i o _ input output refl

  pub record_execution-IsNoted :
      (x : Execution) (b : ReceiptBook)
      → IsNoted x.tool_name x.status x.input_args x.output_res b
          (record_execution sha256 hex canonicalize_json to_value print x b).0
  unfolding record_execution signed_execution
  record_execution-IsNoted x b = note x b _ _ refl refl
