-- ===== src/Receipts/TestLines.antt =====
-- A form for the lines of receipts of src/receipts.rs, which is read back.
use intermcp.Error.{Result, ok, err}
use intermcp.Receipts.{
  ReceiptStatus, success, tool_error, policy_vetoed, timed_out, SignedReceiptRecord,
}
use intermcp.Prelude.{
  ℕ, zero, suc, ◌≡◌, refl, ap, ◌∙◌, Text, codes, false, [], ◌∷◌, ◌++◌, trim, is_empty, text_is_eq,
}
use intermcp.Smac.Tests.{framed, unframed, take_head, drop_head, framed-append, trim_braces}

abbrev status_code : ReceiptStatus → ℕ
status_code success = 0
status_code tool_error = 1
status_code policy_vetoed = 2
status_code timed_out = 3

abbrev status_of : ℕ → ReceiptStatus
status_of zero = success
status_of (suc zero) = tool_error
status_of (suc (suc zero)) = policy_vetoed
status_of _ = timed_out

status_read : (x : ReceiptStatus) → status_of (status_code x) ≡ x
status_read success = refl
status_read tool_error = refl
status_read policy_vetoed = refl
status_read timed_out = refl

print_fields : SignedReceiptRecord → Text → Text
print_fields s rest =
    s.receipt.version
    ∷ s.receipt.sequence
    ∷ s.receipt.execution_duration_us
    ∷ status_code s.receipt.exit_status
    ∷ framed s.receipt.timestamp_utc (
        framed s.receipt.prev_receipt_hash (
          framed s.receipt.session_id (
            framed s.receipt.tool_name (
              framed s.receipt.tool_schema_hash (
                framed s.receipt.canonical_input_hash (
                  framed s.receipt.canonical_output_hash
                    (framed s.receipt_hash (framed s.signature_hex (framed s.signer_id rest)))))))))

unfoldable pub print : SignedReceiptRecord → Text
unfolding print_fields
print s = b'{' ∷ (print_fields s [] ++ b'}' ∷ [])

parse_fields : (version sequence duration status : ℕ) → Text → Result SignedReceiptRecord Text
parse_fields version sequence duration status t =
    let (timestamp_utc, t1) = unframed t in
    let (prev_receipt_hash, t2) = unframed t1 in
    let (session_id, t3) = unframed t2 in
    let (tool_name, t4) = unframed t3 in
    let (tool_schema_hash, t5) = unframed t4 in
    let (canonical_input_hash, t6) = unframed t5 in
    let (canonical_output_hash, t7) = unframed t6 in
    let (receipt_hash, t8) = unframed t7 in
    let (signature_hex, t9) = unframed t8 in
    let (signer_id, t10) = unframed t9 in
    ok (record {
      receipt = record {
        version = version;
        sequence = sequence;
        timestamp_utc = timestamp_utc;
        prev_receipt_hash = prev_receipt_hash;
        session_id = session_id;
        tool_name = tool_name;
        tool_schema_hash = tool_schema_hash;
        canonical_input_hash = canonical_input_hash;
        canonical_output_hash = canonical_output_hash;
        execution_duration_us = duration;
        exit_status = status_of status;
      };
      receipt_hash = receipt_hash;
      signature_hex = signature_hex;
      signer_id = signer_id;
    })

unfoldable pub parse : Text → Result SignedReceiptRecord Text
unfolding parse_fields
parse (_ ∷ version ∷ sequence ∷ duration ∷ status ∷ t) =
    parse_fields version sequence duration status t
parse t = err (codes "too short")

fields-append : (s : SignedReceiptRecord) (x : Text) → print_fields s [] ++ x ≡ print_fields s x
unfolding print_fields
fields-append s x =
    ap
      (λ t.
        s.receipt.version
        ∷ s.receipt.sequence
        ∷ s.receipt.execution_duration_us
        ∷ status_code s.receipt.exit_status
        ∷ t)
      (rw
        (
          framed-append, framed-append, framed-append, framed-append, framed-append, framed-append,
          framed-append, framed-append, framed-append, framed-append,
        )
        refl)

pub reads : (s : SignedReceiptRecord) → parse (trim (print s)) ≡ ok s
unfolding print
reads s =
    ap parse (trim_braces (print_fields s []) ∙ ap (λ t. b'{' ∷ t) (fields-append s (b'}' ∷ [])))
    ∙ (unfold parse print_fields in
        rw
          (
            drop_head s.receipt.timestamp_utc _,
            drop_head s.receipt.prev_receipt_hash _,
            drop_head s.receipt.session_id _,
            drop_head s.receipt.tool_name _,
            drop_head s.receipt.tool_schema_hash _,
            drop_head s.receipt.canonical_input_hash _,
            drop_head s.receipt.canonical_output_hash _,
            drop_head s.receipt_hash _,
            drop_head s.signature_hex _,
            take_head s.receipt.timestamp_utc _,
            take_head s.receipt.prev_receipt_hash _,
            take_head s.receipt.session_id _,
            take_head s.receipt.tool_name _,
            take_head s.receipt.tool_schema_hash _,
            take_head s.receipt.canonical_input_hash _,
            take_head s.receipt.canonical_output_hash _,
            take_head s.receipt_hash _,
            take_head s.signature_hex _,
            take_head s.signer_id _,
            status_read s.receipt.exit_status,
          )
          refl)

pub is_full : (s : SignedReceiptRecord) → is_empty (trim (print s)) ≡ false
unfolding print
is_full s = ap is_empty (trim_braces (print_fields s []))
