-- ===== src/Receipts/Book/Replay.antt =====
-- What `record_execution` appends, `verify_receipt_chain_file` accepts (src/receipts.rs).
use intermcp.Receipts.Book.{
  verify_receipt_chain_file, open_book, resume, verify_from, Execution, receipt_of,
  signed_execution, append, record_execution,
}
use intermcp.Receipts.{
  hash_canonical_json, sign, VerificationSummary, ReceiptBook, genesis_hash, ExecutionReceipt,
  SignedReceiptRecord, try, compute_hash, hmac_sha256, is_signed, verify,
}
use intermcp.Prelude.{
  ℕ, ◌+◌, ◌-◌, ◌%◌, ◌^◌, ◌<◌, add_u64-eq, List, [], ◌∷◌, ◌++◌, add_u64, trim, is_empty, length,
  true, false, ◌≡◌, refl, sym, ap, ◌∙◌, arith, Text, some, ==_refl, text_is_eq, as_bytes,
}
use intermcp.Receipts.Book.Chain.{check, pass_line, from, from_blank, from_full}
use intermcp.Smac.{genesis_hash}
use mathlib.Core.Path.{subst}
use mathlib.Core.List.{append-nil, append_assoc}
use intermcp.Error.{Result, ok, err, FastMcpError}
use intermcp.Json.{Value}

module _ (sha256 : List ℕ → List ℕ) (hex : List ℕ → Text)
    (canonicalize_json : Value → Result (List ℕ) FastMcpError)
    (to_value : ExecutionReceipt → Result Value FastMcpError) where
  -- A record that was signed is verified with the same key.
  signed_verified :
      (key : List ℕ) (signer_id : Text) (r : ExecutionReceipt) (s : SignedReceiptRecord)
      (h : Result Text FastMcpError)
      → compute_hash sha256 hex canonicalize_json to_value r ≡ h
      → try h (λ receipt_hash. ok (record {
        receipt = r;
        receipt_hash = receipt_hash;
        signature_hex = hmac_sha256 sha256 hex key (as_bytes receipt_hash);
        signer_id = signer_id;
      }))
        ≡ ok s
      → (s.receipt ≡ r) × (verify sha256 hex canonicalize_json to_value (some key) s ≡ ok true)
  signed_verified key signer_id r s (ok h) computed p =
      let made : SignedReceiptRecord = record {
        receipt = r;
        receipt_hash = h;
        signature_hex = hmac_sha256 sha256 hex key (as_bytes h);
        signer_id = signer_id;
      } in
      let same : made ≡ s = cc in
      (
        ap (λ (x : SignedReceiptRecord). x.receipt) (sym same),
        ap (verify sha256 hex canonicalize_json to_value (some key)) (sym same)
            ∙ (unfold verify is_signed in
                rw
                  (
                    computed,
                    ==_refl h,
                    ==_refl (as_bytes (hmac_sha256 sha256 hex key (as_bytes h))),
                  )
                  refl),
      )
  signed_verified key signer_id r s (err e) computed p = absurd (ground arith)

  -- What the record of an execution continues.
  abbrev Continues : ReceiptBook → SignedReceiptRecord → Type 0
  Continues b s =
      (s.receipt.sequence ≡ b.sequence)
      × (s.receipt.prev_receipt_hash ≡ b.prev_hash)
      × (verify sha256 hex canonicalize_json to_value (some b.secret_key) s ≡ ok true)

  signed-Continues :
      (x : Execution) (b : ReceiptBook) (i o : Text) (s : SignedReceiptRecord)
      → sign sha256 hex canonicalize_json to_value b.secret_key b.signer_id
          (receipt_of sha256 hex canonicalize_json to_value x i o b)
        ≡ ok s
      → Continues b s
  signed-Continues x b i o s h =
      let r = receipt_of sha256 hex canonicalize_json to_value x i o b in
      let (same, verified) =
        signed_verified b.secret_key b.signer_id r s _ refl (unfold sign in h) in
      (
        ap (λ (y : ExecutionReceipt). y.sequence) same ∙ (unfold receipt_of in refl),
        ap (λ (y : ExecutionReceipt). y.prev_receipt_hash) same ∙ (unfold receipt_of in refl),
        verified,
      )

  try_both :
      (x : Execution) (b : ReceiptBook) (s : SignedReceiptRecord) (ri ro : Result Text FastMcpError)
      → try ri (λ i. try ro (λ o.
        sign sha256 hex canonicalize_json to_value b.secret_key b.signer_id
          (receipt_of sha256 hex canonicalize_json to_value x i o b)))
        ≡ ok s
      → Continues b s
  try_both x b s (ok i) (ok o) h = signed-Continues x b i o s h
  try_both x b s (ok i) (err e) h = absurd (ground arith)
  try_both x b s (err e) ro h = absurd (ground arith)

  module _ (print : SignedReceiptRecord → Text) (parse : Text → Result SignedReceiptRecord Text)
      (reads : (s : SignedReceiptRecord) → parse (trim (print s)) ≡ ok s)
      (is_full : (s : SignedReceiptRecord) → is_empty (trim (print s)) ≡ false) where
    abbrev run : List ℕ → ℕ → ℕ → ℕ → Text → List Text → Result VerificationSummary FastMcpError
    run key = from sha256 hex canonicalize_json to_value parse (some key)

    run_blank :
        (key : List ℕ) (line seq n : ℕ) (p l : Text) (ls : List Text)
        → is_empty (trim l) ≡ true
        → run key line seq n p (l ∷ ls) ≡ run key (line + 1) seq n p ls
    run_blank key = from_blank sha256 hex canonicalize_json to_value parse (some key)

    run_full :
        (key : List ℕ) (line seq n : ℕ) (p l : Text) (ls : List Text) (s : SignedReceiptRecord)
        → is_empty (trim l) ≡ false
        → parse (trim l) ≡ ok s
        → s.receipt.sequence ≡ seq
        → s.receipt.prev_receipt_hash ≡ p
        → verify sha256 hex canonicalize_json to_value (some key) s ≡ ok true
        → run key line seq n p (l ∷ ls)
          ≡ run key (line + 1) (add_u64 seq 1) (n + 1) s.receipt_hash ls
    run_full key line seq n p l ls s full parsed hs hp v =
        let rest = λ (h : Text). run key (line + 1) (add_u64 seq 1) (n + 1) h ls in
        from_full sha256 hex canonicalize_json to_value parse (some key) line seq n p l ls full
        ∙ ap (λ r. check sha256 hex canonicalize_json to_value parse (some key) r line seq p rest)
            parsed
        ∙ pass_line sha256 hex canonicalize_json to_value parse (some key) s line seq p rest hs hp v

    -- Reading goes on behind the lines of a book, with the number and the hash that the book has.
    abbrev GoesOn : ReceiptBook → ℕ → Type 0
    GoesOn b n =
        (line' : ℕ) × ((ms : List Text)
          → run b.secret_key 1 1 0 genesis_hash (b.lines ++ ms)
            ≡ run b.secret_key line' b.sequence n b.prev_hash ms)

    append-GoesOn :
        (b : ReceiptBook) (n : ℕ) (s : SignedReceiptRecord)
        → Continues b s
        → GoesOn b n
        → GoesOn (append sha256 hex canonicalize_json to_value print b (ok s)).0 (n + 1)
    unfolding append
    append-GoesOn b n s (hs, hp, v) (line, g) = (
      line + 1,
      λ ms.
          ap (run b.secret_key 1 1 0 genesis_hash) (append_assoc b.lines (print s ∷ []) ms)
          ∙ g (print s ∷ ms)
          ∙ run_full b.secret_key line b.sequence n b.prev_hash (print s) ms s (is_full s) (reads s)
              hs hp v,
    )

    -- Executions that are all recorded.
    abbrev pub record_all : List Execution → ReceiptBook → Result ReceiptBook FastMcpError
    record_all [] b = ok b
    record_all (x ∷ xs) b =
        let (b', r) = record_execution sha256 hex canonicalize_json to_value print x b in
        try r (λ s. record_all xs b')

    execution-Continues :
        (x : Execution) (b : ReceiptBook) (s : SignedReceiptRecord)
        → signed_execution sha256 hex canonicalize_json to_value print x b ≡ ok s
        → Continues b s
    execution-Continues x b s h =
        try_both x b s (hash_canonical_json sha256 hex canonicalize_json x.input_args)
          (hash_canonical_json sha256 hex canonicalize_json x.output_res)
          (unfold signed_execution in h)

    -- What a book has become after as many executions.
    abbrev Behind : ReceiptBook → ReceiptBook → ℕ → ℕ → Type 0
    Behind b b' n k =
        GoesOn b' (n + k)
        × (b'.sequence ≡ b.sequence + k)
        × (b'.secret_key ≡ b.secret_key)
        × (b'.signer_id ≡ b.signer_id)

    one_more :
        (x : Execution) (xs : List Execution) (b b' : ReceiptBook) (n : ℕ)
        (r : Result SignedReceiptRecord FastMcpError)
        → ((b1 : ReceiptBook)
            → record_all xs b1 ≡ ok b'
            → b1.sequence + length xs < 2 ^ 64
            → GoesOn b1 (n + 1)
            → Behind b1 b' (n + 1) (length xs))
        → signed_execution sha256 hex canonicalize_json to_value print x b ≡ r
        → try
            (append sha256 hex canonicalize_json to_value print b r).1
            (λ s. record_all xs (append sha256 hex canonicalize_json to_value print b r).0)
          ≡ ok b'
        → b.sequence + length (x ∷ xs) < 2 ^ 64
        → GoesOn b n
        → Behind b b' n (length (x ∷ xs))
    unfolding append
    one_more x xs b b' n (ok s) ih made h small g =
        let b1 = (append sha256 hex canonicalize_json to_value print b (ok s)).0 in
        let next : b1.sequence ≡ b.sequence + 1 = add_u64-eq b.sequence 1 (omega (arith, small)) in
        let goes : GoesOn b1 (n + 1) = append-GoesOn b n s (execution-Continues x b s made) g in
        let (goes', seq, key, signer) = ih b1 h (omega (arith, small, next)) goes in
        (subst (GoesOn b') (omega arith) goes', omega (arith, seq, next), key, signer)
    one_more x xs b b' n (err e) ih made h small g = absurd (ground arith)

    record_all-Behind :
        (xs : List Execution) (b b' : ReceiptBook) (n : ℕ)
        → record_all xs b ≡ ok b'
        → b.sequence + length xs < 2 ^ 64
        → GoesOn b n
        → Behind b b' n (length xs)
    unfolding record_execution
    record_all-Behind [] b b' n h small g =
        let same : b ≡ b' = cc in
        subst (λ c. Behind b c n 0) same (subst (GoesOn b) (omega arith) g, omega arith, refl, refl)
    record_all-Behind (x ∷ xs) b b' n h small g =
        one_more x xs b b' n (signed_execution sha256 hex canonicalize_json to_value print x b)
          (λ b1 h1 small1 g1. record_all-Behind xs b1 b' (n + 1) h1 small1 g1) refl h small g

    -- The book of a new file.
    abbrev pub fresh : List ℕ → Text → ReceiptBook
    fresh key signer_id = record {
      lines = [];
      sequence = 1;
      prev_hash = genesis_hash;
      secret_key = key;
      signer_id = signer_id;
    }

    -- If the line of every record is read back as that record, then after fewer than 2^64 - 1
    -- executions that are all recorded in a new file, the file is accepted with the key of the book,
    -- with their number and the hash of the last, and a book that is opened on the file is the book
    -- that wrote it.
    pub verify-record_all :
        (xs : List Execution) (key : List ℕ) (signer_id : Text) (b : ReceiptBook)
        → record_all xs (fresh key signer_id) ≡ ok b
        → length xs < 2 ^ 64 - 1
        → (verify_receipt_chain_file sha256 hex canonicalize_json to_value parse
              (some key)
              (some b.lines)
            ≡ ok
                (record { count = length xs; last_hash = b.prev_hash; signatures_verified = true }))
          × (open_book sha256 hex canonicalize_json to_value parse (some b.lines) key signer_id
              ≡ ok b)
    verify-record_all xs key signer_id b h small =
        let ((line, goes), seq, key_same, signer_same) =
          record_all-Behind xs (fresh key signer_id) b 0 h (omega (arith, small)) (1, λ ms. refl) in
        let summary : VerificationSummary = record {
          count = length xs;
          last_hash = b.prev_hash;
          signatures_verified = true;
        } in
        let count_same : 0 + length xs ≡ length xs = omega arith in
        let ended : run b.secret_key line b.sequence (length xs) b.prev_hash [] ≡ ok summary =
          (unfold verify_from in refl) in
        let seq_same : (length xs + 1) % 2 ^ 64 ≡ b.sequence = omega (arith, seq, small) in
        let read : run b.secret_key 1 1 0 genesis_hash b.lines ≡ ok summary =
          ap (run b.secret_key 1 1 0 genesis_hash) (sym (append-nil b.lines))
          ∙ goes []
          ∙ ap (λ n. run b.secret_key line b.sequence n b.prev_hash []) count_same
          ∙ ended in
        let accepted : verify_receipt_chain_file sha256 hex canonicalize_json to_value parse
              (some key) (some b.lines)
            ≡ ok summary =
          (unfold verify_receipt_chain_file in
            subst (λ q. run q 1 1 0 genesis_hash b.lines ≡ ok summary) key_same read) in
        let resumed : open_book sha256 hex canonicalize_json to_value parse (some b.lines) key
              signer_id
            ≡ resume sha256 hex canonicalize_json to_value parse b.lines key signer_id
                (ok summary) =
          (unfold open_book in
            ap (resume sha256 hex canonicalize_json to_value parse b.lines key signer_id)
              accepted) in
        let made : resume sha256 hex canonicalize_json to_value parse b.lines key signer_id
              (ok summary)
            ≡ ok b =
          (unfold resume in
            ap
              (λ n. ok (record {
                lines = b.lines;
                sequence = n;
                prev_hash = b.prev_hash;
                secret_key = key;
                signer_id = signer_id;
              }))
              seq_same
            ∙ ap
                (λ q. ok (record {
                  lines = b.lines;
                  sequence = b.sequence;
                  prev_hash = b.prev_hash;
                  secret_key = q;
                  signer_id = signer_id;
                }))
                (sym key_same)
            ∙ ap (λ t. ok (record b { signer_id = t })) (sym signer_same)) in
        (accepted, resumed ∙ made)
