-- ===== src/Receipts/Book/Checkpoint.antt =====
-- Truncation of a receipt file, and the checkpoint that shows it (src/receipts.rs).
use intermcp.Prelude.{
  eqb_iff, ==_refl, length-append, ℕ, ◌+◌, ◌%◌, ◌^◌, ◌<◌, ◌≡◌, refl, sym, ap, ◌∙◌, arith, Text,
  true, false, Option, some, List, [], ◌∷◌, ◌++◌, text_is_eq, eqb, add_u64, trim, is_empty, length,
  Bool-cases, inl, inr,
}
use intermcp.Error.{Result, ok, err, FastMcpError, security_violation, checkpoint_missed}
use intermcp.Json.{Value}
use intermcp.Smac.{genesis_hash}
use intermcp.Receipts.{
  ExecutionReceipt, SignedReceiptRecord, VerificationSummary, from_summary,
  verify_receipt_checkpoint,
}
use intermcp.Receipts.Book.{is_given, verify_from, verify_receipt_chain_file}
use intermcp.Receipts.Book.Chain.{
  records-append, pass_line, check, check-ok, from, from_blank, from_full, records,
  verify_receipt_chain_file-IsChain,
}

missed :
    (res full : VerificationSummary) (signer_id : Text)
    → res.count < full.count
    → full.count < 2 ^ 64
    → verify_receipt_checkpoint res (from_summary full signer_id)
      ≡ err (security_violation (checkpoint_missed full.count full.last_hash))
unfolding verify_receipt_checkpoint
missed res full signer_id fewer small =
    let part : res.count % 2 ^ 64 ≡ res.count = omega arith in
    let whole : full.count % 2 ^ 64 ≡ full.count = omega arith in
    let differ : eqb res.count full.count ≡ false = ground arith in rw (part, whole, differ) refl

reached :
    (full : VerificationSummary) (signer_id : Text)
    → verify_receipt_checkpoint full (from_summary full signer_id) ≡ ok tt
unfolding verify_receipt_checkpoint
reached full signer_id =
    rw ((eqb_iff (full.count % 2 ^ 64) (full.count % 2 ^ 64)).1 refl, ==_refl full.last_hash) refl

module _ (sha256 : List ℕ → List ℕ) (hex : List ℕ → Text)
    (canonicalize_json : Value → Result (List ℕ) FastMcpError)
    (to_value : ExecutionReceipt → Result Value FastMcpError)
    (parse : Text → Result SignedReceiptRecord Text) (secret_key : Option (List ℕ)) where
  abbrev reads : ℕ → ℕ → ℕ → Text → List Text → Result VerificationSummary FastMcpError
  reads = from sha256 hex canonicalize_json to_value parse secret_key

  abbrev blank_line :
      (line seq n : ℕ) (p l : Text) (ls : List Text)
      → is_empty (trim l) ≡ true
      → reads line seq n p (l ∷ ls) ≡ reads (line + 1) seq n p ls
  blank_line = from_blank sha256 hex canonicalize_json to_value parse secret_key

  abbrev full_line :
      (line seq n : ℕ) (p l : Text) (ls : List Text)
      → is_empty (trim l) ≡ false
      → reads line seq n p (l ∷ ls)
        ≡ check sha256 hex canonicalize_json to_value parse secret_key
            (parse (trim l))
            line
            seq
            p
            (λ hash. reads (line + 1) (add_u64 seq 1) (n + 1) hash ls)
  full_line = from_full sha256 hex canonicalize_json to_value parse secret_key

  -- The beginning of an accepted file is accepted.
  prefix_accepted :
      (ls ms : List Text) (line seq n : ℕ) (p : Text) (res : VerificationSummary)
      → reads line seq n p (ls ++ ms) ≡ ok res
      → (res' : VerificationSummary) × (reads line seq n p ls ≡ ok res')
  prefix_accepted [] ms line seq n p res v = (
    record { count = n; last_hash = p; signatures_verified = is_given secret_key },
    (unfold verify_from in refl),
  )
  prefix_accepted (l ∷ ls) ms line seq n p res v = elim (Bool-cases (is_empty (trim l))) [
    | inl blank ↦
        let (res', v') =
          prefix_accepted ls ms (line + 1) seq n p res
            (sym (blank_line line seq n p l _ blank) ∙ v) in
        (res', blank_line line seq n p l ls blank ∙ v')
    | inr full ↦
        let (s, parsed, seq_same, prev, verified, rest) =
          check-ok sha256 hex canonicalize_json to_value parse secret_key (parse (trim l)) line seq
            p _ res (sym (full_line line seq n p l _ full) ∙ v) in
        let (res', v') =
          prefix_accepted ls ms (line + 1) (add_u64 seq 1) (n + 1) s.receipt_hash res rest in
        (
          res',
          full_line line seq n p l ls full
              ∙ ap
                  (λ r.
                    check sha256 hex canonicalize_json to_value parse secret_key r line seq p
                      (λ h. reads (line + 1) (add_u64 seq 1) (n + 1) h ls))
                  parsed
              ∙ pass_line sha256 hex canonicalize_json to_value parse secret_key s line seq p _
                  seq_same prev verified
              ∙ v',
        )
  ]

  abbrev verifies : List Text → Result VerificationSummary FastMcpError
  verifies ls =
      verify_receipt_chain_file sha256 hex canonicalize_json to_value parse secret_key (some ls)

  abbrev count_of : List Text → ℕ
  count_of ls = length (records sha256 hex canonicalize_json to_value parse secret_key ls)

  counts :
      (ls : List Text) (res : VerificationSummary) → verifies ls ≡ ok res → res.count ≡ count_of ls
  counts ls res v =
      (verify_receipt_chain_file-IsChain sha256 hex canonicalize_json to_value parse secret_key ls
        res v).1

  -- When an accepted file of fewer than 2^64 records loses lines at its end that hold a record, what
  -- is left is still accepted by `verify_receipt_chain_file`; but the checkpoint of the whole file
  -- refuses it, while it lets the whole file through.
  pub truncation_shown :
      (ls ms : List Text) (full : VerificationSummary) (signer_id : Text)
      → verify_receipt_chain_file sha256 hex canonicalize_json to_value parse secret_key
          (some (ls ++ ms))
        ≡ ok full
      → full.count < 2 ^ 64
      → 0 < length (records sha256 hex canonicalize_json to_value parse secret_key ms)
      → (res : VerificationSummary) × (verify_receipt_chain_file sha256 hex canonicalize_json
            to_value parse secret_key
            (some ls)
          ≡ ok res)
        × (verify_receipt_checkpoint res (from_summary full signer_id)
            ≡ err (security_violation (checkpoint_missed full.count full.last_hash)))
        × (verify_receipt_checkpoint full (from_summary full signer_id) ≡ ok tt)
  truncation_shown ls ms full signer_id v small lost =
      let (res, v') =
        prefix_accepted ls ms 1 1 0 genesis_hash full (unfold verify_receipt_chain_file in v) in
      let kept : verifies ls ≡ ok res = (unfold verify_receipt_chain_file in v') in
      let fewer : res.count < full.count = omega (
        arith,
        counts ls res kept,
        counts (ls ++ ms) full v,
        ap (λ rs. length rs)
            (records-append sha256 hex canonicalize_json to_value parse secret_key ls ms),
        length-append (records sha256 hex canonicalize_json to_value parse secret_key ls)
            (records sha256 hex canonicalize_json to_value parse secret_key ms),
        lost,
      ) in
      (res, kept, missed res full signer_id fewer small, reached full signer_id)
