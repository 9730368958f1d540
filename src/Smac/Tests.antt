-- ===== src/Smac/Tests.antt =====
-- Instances for src/smac.rs: a codec for the lines that is read back, and a digest that stands for
-- SHA-256.
use intermcp.Prelude.{
  take, ℕ, ◌≡◌, ◌⊎◌, refl, sym, ap, ◌∙◌, arith, Text, codes, List, [], ◌∷◌, ◌++◌, length, drop,
  trim, trim_start, is_whitespace, is_empty, reverse, false, text_is_eq, map,
}
use mathlib.Core.List.{reverse-append, append_assoc, reverse-reverse}
use intermcp.Error.{Result, ok, err}
use intermcp.Json.{Value, empty_object}
use intermcp.Smac.{SmacEntry, SmacLogger, genesis_hash, verify_smac_log_chain, new}
use intermcp.Smac.Chain.{IsDigest, SomeCollide, covered, entries, same_hash_same_log}
use intermcp.Smac.Replay.{Audited, log_all, fresh, retime, verify-log_all, verify_ignores_ts}

-- A text with its length in front.
abbrev pub framed : Text → Text → Text
framed s rest = length s ∷ (s ++ rest)

abbrev pub unframed : Text → Text × Text
unframed [] = ([], [])
unframed (n ∷ s) = (take n s, drop n s)

pub take_head : (s r : Text) → take (length s) (s ++ r) ≡ s
take_head [] [] = refl
take_head [] (c ∷ r) = refl
take_head (c ∷ s) r = ap (λ t. c ∷ t) (take_head s r)

pub drop_head : (s r : Text) → drop (length s) (s ++ r) ≡ r
drop_head [] r = refl
drop_head (c ∷ s) r = drop_head s r

print_fields : SmacEntry → Text → Text
print_fields e rest =
    e.index
    ∷ e.ts
    ∷ framed e.tool
        (framed e.prev_hash (framed e.req_hash (framed e.resp_hash (framed e.hash rest))))

unfoldable print : SmacEntry → Text
unfolding print_fields
print e = b'{' ∷ (print_fields e [] ++ b'}' ∷ [])

parse_fields : ℕ → ℕ → Text → Result SmacEntry Text
parse_fields index ts s =
    let (tool, s1) = unframed s in
    let (prev_hash, s2) = unframed s1 in
    let (req_hash, s3) = unframed s2 in
    let (resp_hash, s4) = unframed s3 in
    let (hash, s5) = unframed s4 in
    ok (record {
      index = index;
      ts = ts;
      tool = tool;
      prev_hash = prev_hash;
      req_hash = req_hash;
      resp_hash = resp_hash;
      hash = hash;
    })

unfoldable parse : Text → Result SmacEntry Text
unfolding parse_fields
parse (_ ∷ index ∷ ts ∷ s) = parse_fields index ts s
parse s = err (codes "too short")

pub framed-append : (s r x : Text) → framed s r ++ x ≡ framed s (r ++ x)
framed-append s r x = ap (λ t. length s ∷ t) (append_assoc s r x)

-- A text between braces keeps its ends when it is trimmed.
pub trim_braces : (m : Text) → trim (b'{' ∷ (m ++ b'}' ∷ [])) ≡ b'{' ∷ (m ++ b'}' ∷ [])
unfolding trim trim_start is_whitespace
trim_braces m =
    ap (λ r. reverse (trim_start r)) (reverse-append (b'{' ∷ m) (b'}' ∷ []))
    ∙ ap reverse (sym (reverse-append (b'{' ∷ m) (b'}' ∷ [])))
    ∙ reverse-reverse (b'{' ∷ (m ++ b'}' ∷ []))

fields-append : (e : SmacEntry) (x : Text) → print_fields e [] ++ x ≡ print_fields e x
unfolding print_fields
fields-append e x =
    ap (λ t. e.index ∷ e.ts ∷ t)
      (rw (framed-append, framed-append, framed-append, framed-append, framed-append) refl)

reads : (e : SmacEntry) → parse (trim (print e)) ≡ ok e
unfolding print
reads e =
    ap parse (trim_braces (print_fields e []) ∙ ap (λ t. b'{' ∷ t) (fields-append e (b'}' ∷ [])))
    ∙ (unfold parse print_fields in
        rw
          (
            drop_head e.tool _,
            drop_head e.prev_hash _,
            drop_head e.req_hash _,
            drop_head e.resp_hash _,
            take_head e.tool _,
            take_head e.prev_hash _,
            take_head e.req_hash _,
            take_head e.resp_hash _,
            take_head e.hash _,
          )
          refl)

is_full : (e : SmacEntry) → is_empty (trim (print e)) ≡ false
unfolding print
is_full e = ap is_empty (trim_braces (print_fields e []))

-- A digest of 64 zeros, and one that keeps what it hashes.
zeros : List ℕ → Text
zeros x = genesis_hash

zeros-IsDigest : (x : List ℕ) → IsDigest (zeros x)
unfolding zeros
zeros-IsDigest x = (refl, ground arith)

abbrev hash_value : Value → Text
hash_value v = codes "hash"

abbrev calls : List Audited
calls =
    (record { ts = 7; tool = codes "read"; args = empty_object; result = empty_object })
    ∷ (record { ts = 9; tool = codes "write"; args = empty_object; result = empty_object })
    ∷ []

abbrev logged : SmacLogger
logged = log_all zeros hash_value print calls fresh

verify-log_all_example :
    (verify_smac_log_chain zeros parse logged.lines ≡ ok (2, logged.last_hash))
    × (new zeros parse logged.lines ≡ ok logged)
verify-log_all_example =
    verify-log_all zeros hash_value print parse reads is_full calls (omega arith)

abbrev one : SmacEntry
one = record {
  index = 0;
  ts = 5;
  tool = codes "read";
  prev_hash = genesis_hash;
  req_hash = codes "a";
  resp_hash = codes "b";
  hash = genesis_hash;
}

verify_ignores_ts_example :
    verify_smac_log_chain zeros parse (map print (map (retime (λ e. 99)) (one ∷ [])))
    ≡ verify_smac_log_chain zeros parse (map print (one ∷ []))
verify_ignores_ts_example =
    verify_ignores_ts zeros hash_value print parse reads is_full (λ e. 99) (one ∷ [])

same_hash_same_log_example :
    (map (covered zeros) (entries zeros parse logged.lines)
      ≡ map (covered zeros) (entries zeros parse logged.lines))
    ⊎ SomeCollide zeros (entries zeros parse logged.lines) (entries zeros parse logged.lines)
same_hash_same_log_example =
    same_hash_same_log zeros zeros-IsDigest parse logged.lines logged.lines 2 logged.last_hash
      (verify-log_all zeros hash_value print parse reads is_full calls (omega arith)).0
      (verify-log_all zeros hash_value print parse reads is_full calls (omega arith)).0
