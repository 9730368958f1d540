-- ===== src/Receipts/Book/Chain.antt =====
-- What a receipt file that src/receipts.rs accepts is.
use intermcp.Prelude.{
  ◌++◌, [], ◌∷◌, ◌+◌, sym, ◌∙◌, length, trim, add_u64, ◌∷◌, is_empty, ℕ, ◌≡◌, refl, arith, Text,
  Bool, true, false, Option, none, some, List, ◌==◌, ==_iff, text_is_eq, eqb, eqb_iff,
  if◌then◌else◌, as_bytes, Bool-cases, inl, inr,
}
use intermcp.Receipts.{
  genesis_hash, ExecutionReceipt, SignedReceiptRecord, VerificationSummary, try, compute_hash,
  hmac_sha256, is_signed, verify,
}
use intermcp.Receipts.Book.{
  verify_receipt_chain_file, check_line, check_record, signature_verdict, verify_from,
}
use intermcp.Error.{Result, ok, err, FastMcpError}
use intermcp.Json.{Value}

module _ (sha256 : List ℕ → List ℕ) (hex : List ℕ → Text)
    (canonicalize_json : Value → Result (List ℕ) FastMcpError)
    (to_value : ExecutionReceipt → Result Value FastMcpError) where
  -- The signature is that of the key over the hash.
  abbrev pub HasSignature : Option (List ℕ) → SignedReceiptRecord → Type 0
  HasSignature none s = Unit
  HasSignature (some key) s =
      as_bytes s.signature_hex ≡ as_bytes (hmac_sha256 sha256 hex key (as_bytes s.receipt_hash))

  -- The hash is that of the receipt, and the signature that of the key, if there is one.
  abbrev pub IsAuthentic : Option (List ℕ) → SignedReceiptRecord → Type 0
  IsAuthentic secret_key s =
      (compute_hash sha256 hex canonicalize_json to_value s.receipt ≡ ok s.receipt_hash)
      × HasSignature secret_key s

  is_signed-HasSignature :
      (secret_key : Option (List ℕ)) (s : SignedReceiptRecord)
      → is_signed sha256 hex canonicalize_json to_value secret_key s ≡ true
      → HasSignature secret_key s
  unfolding is_signed
  is_signed-HasSignature none s h = tt
  is_signed-HasSignature (some key) s h = (==_iff _ _).0 h

  verify_with :
      (secret_key : Option (List ℕ)) (s : SignedReceiptRecord) (r : Result Text FastMcpError)
      → try r (λ computed_hash. ok (
          if computed_hash == s.receipt_hash
          then is_signed sha256 hex canonicalize_json to_value secret_key s
          else false))
        ≡ ok true
      → (r ≡ ok s.receipt_hash) × HasSignature secret_key s
  verify_with secret_key s (ok h) p =
      let hash_same = ==_iff h s.receipt_hash in
      (ground (arith, hash_same), is_signed-HasSignature secret_key s (ground (arith, hash_same)))
  verify_with secret_key s (err e) p = absurd (ground arith)

  pub verify-IsAuthentic :
      (secret_key : Option (List ℕ)) (s : SignedReceiptRecord)
      → verify sha256 hex canonicalize_json to_value secret_key s ≡ ok true
      → IsAuthentic secret_key s
  unfolding verify
  verify-IsAuthentic secret_key s h = verify_with secret_key s _ h

  module _ (parse : Text → Result SignedReceiptRecord Text) (secret_key : Option (List ℕ)) where
    abbrev pub check :
        Result SignedReceiptRecord Text
        → (line expected_seq : ℕ) → (expected_prev_hash : Text)
        → (Text → Result VerificationSummary FastMcpError)
        → Result VerificationSummary FastMcpError
    check = check_line sha256 hex canonicalize_json to_value parse secret_key

    abbrev pub from :
        (line expected_seq total_verified : ℕ)
        → Text
        → List Text
        → Result VerificationSummary FastMcpError
    from = verify_from sha256 hex canonicalize_json to_value parse secret_key

    abbrev pub IsVerified : SignedReceiptRecord → Type 0
    IsVerified s = verify sha256 hex canonicalize_json to_value secret_key s ≡ ok true

    signature_verdict-ok :
        (r : Result Bool FastMcpError) (s : SignedReceiptRecord) (line : ℕ)
        (rest : Result VerificationSummary FastMcpError) (res : VerificationSummary)
        → signature_verdict sha256 hex canonicalize_json to_value parse secret_key r s line rest
          ≡ ok res
        → (r ≡ ok true) × (rest ≡ ok res)
    unfolding signature_verdict
    signature_verdict-ok (ok true) s line rest res h = (refl, h)
    signature_verdict-ok (ok false) s line rest res h = absurd (ground arith)
    signature_verdict-ok (err e) s line rest res h = absurd (ground arith)

    pub check-ok :
        (r : Result SignedReceiptRecord Text) (line seq : ℕ) (p : Text)
        (rest : Text → Result VerificationSummary FastMcpError) (res : VerificationSummary)
        → check r line seq p rest ≡ ok res
        → (s : SignedReceiptRecord) × (r ≡ ok s)
          × (s.receipt.sequence ≡ seq)
          × (s.receipt.prev_receipt_hash ≡ p)
          × IsVerified s
          × (rest s.receipt_hash ≡ ok res)
    unfolding check_line check_record
    check-ok (err e) line seq p rest res h = absurd (ground arith)
    check-ok (ok s) line seq p rest res h =
        let seq_same = eqb_iff s.receipt.sequence seq in
        let prev_same = ==_iff s.receipt.prev_receipt_hash p in
        elim (Bool-cases (eqb s.receipt.sequence seq)) [
          | inr other ↦ absurd (ground (arith, other))
          | inl right ↦ elim (Bool-cases (s.receipt.prev_receipt_hash == p)) [
            | inr broken ↦ absurd (ground (arith, right, broken))
            | inl linked ↦
                let (verified, rest_ok) =
                  signature_verdict-ok _ s line (rest s.receipt_hash) res
                    (rw (right, linked) at h) in
                (s, refl, seq_same.0 right, prev_same.0 linked, verified, rest_ok)
          ]
        ]

    pub pass_line :
        (s : SignedReceiptRecord) (line seq : ℕ) (p : Text)
        (rest : Text → Result VerificationSummary FastMcpError)
        → s.receipt.sequence ≡ seq
        → s.receipt.prev_receipt_hash ≡ p
        → IsVerified s
        → check (ok s) line seq p rest ≡ rest s.receipt_hash
    unfolding check_line check_record signature_verdict
    pass_line s line seq p rest hs hp v =
        rw ((eqb_iff s.receipt.sequence seq).1 hs, (==_iff s.receipt.prev_receipt_hash p).1 hp, v)
          refl

    -- Records in a row: their numbers count on, each names the hash of the one before it, and each
    -- is authentic.
    abbrev pub IsChain : ℕ → Text → List SignedReceiptRecord → Text → Type 0
    IsChain seq p [] h = p ≡ h
    IsChain seq p (s ∷ ss) h =
        (s.receipt.sequence ≡ seq)
        × (s.receipt.prev_receipt_hash ≡ p)
        × IsAuthentic secret_key s
        × IsChain (add_u64 seq 1) s.receipt_hash ss h

    abbrev add :
        Result SignedReceiptRecord Text → List SignedReceiptRecord → List SignedReceiptRecord
    add (ok s) ss = s ∷ ss
    add (err e) ss = ss

    add-append :
        (r : Result SignedReceiptRecord Text) (ss ts : List SignedReceiptRecord)
        → add r (ss ++ ts) ≡ add r ss ++ ts
    add-append (ok s) ss ts = refl
    add-append (err e) ss ts = refl

    -- The records on the lines of a file.
    abbrev pub records : List Text → List SignedReceiptRecord
    records [] = []
    records (l ∷ ls) = if is_empty (trim l) then records ls else add (parse (trim l)) (records ls)

    pub records-append : (ls ms : List Text) → records (ls ++ ms) ≡ records ls ++ records ms
    records-append [] ms = refl
    records-append (l ∷ ls) ms =
        ground (arith, records-append ls ms, add-append (parse (trim l)) (records ls) (records ms))

    pub from_blank :
        (line seq n : ℕ) (p l : Text) (ls : List Text)
        → is_empty (trim l) ≡ true
        → from line seq n p (l ∷ ls) ≡ from (line + 1) seq n p ls
    unfolding verify_from
    from_blank line seq n p l ls h = ground arith

    pub from_full :
        (line seq n : ℕ) (p l : Text) (ls : List Text)
        → is_empty (trim l) ≡ false
        → from line seq n p (l ∷ ls)
          ≡ check
              (parse (trim l))
              line
              seq
              p
              (λ hash. from (line + 1) (add_u64 seq 1) (n + 1) hash ls)
    unfolding verify_from
    from_full line seq n p l ls h = ground arith

    accepted-IsChain :
        (line seq n : ℕ) (p : Text) (ls : List Text) (res : VerificationSummary)
        → from line seq n p ls ≡ ok res
        → IsChain seq p (records ls) res.last_hash × (res.count ≡ n + length (records ls))
    accepted-IsChain line seq n p [] res v = (unfold verify_from in (cc, ground arith))
    accepted-IsChain line seq n p (l ∷ ls) res v = elim (Bool-cases (is_empty (trim l))) [
      | inl blank ↦ rw blank (
          accepted-IsChain (line + 1) seq n p ls res (sym (from_blank line seq n p l ls blank) ∙ v))
      | inr full ↦
          let (s, parsed, seq_same, prev, verified, rest) =
            check-ok (parse (trim l)) line seq p _ res
              (sym (from_full line seq n p l ls full) ∙ v) in
          let (chain, counted) =
            accepted-IsChain (line + 1) (add_u64 seq 1) (n + 1) s.receipt_hash ls res rest in
          rw (full, parsed)
            (
              (seq_same, prev, verify-IsAuthentic secret_key s verified, chain),
              omega (arith, counted),
            )
    ]

    -- A file that `verify_receipt_chain_file` accepts holds records that are numbered from one, each
    -- with the hash of the one before it (the first with 64 zeros), with its own right hash and, if
    -- a key is given, the right signature; the summary has their number and the hash of the last.
    pub verify_receipt_chain_file-IsChain :
        (ls : List Text) (res : VerificationSummary)
        → verify_receipt_chain_file sha256 hex canonicalize_json to_value parse secret_key (some ls)
          ≡ ok res
        → IsChain 1 genesis_hash (records ls) res.last_hash × (res.count ≡ length (records ls))
    unfolding verify_receipt_chain_file
    verify_receipt_chain_file-IsChain ls res v =
        let (chain, counted) = accepted-IsChain 1 1 0 genesis_hash ls res v in
        (chain, omega (arith, counted))
