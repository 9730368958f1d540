-- ===== src/Server/Redaction/Matches.antt =====
-- src/server.rs: the matches of `redact_for_log`, and the whole of it against its reference.
use mathlib.Core.Path.{subst}
use intermcp.Prelude.{
  drop, ◌≡◌, refl, sym, ◌∙◌, arith, ℕ, suc, ◌+◌, ◌<◌, Text, false, [], ◌∷◌, ◌++◌, length, All,
  All-append, inl, inr, Option, none, some, Option-cases,
}
use intermcp.Server.Redaction.{
  count_while, is_blank, matches_of, all_matches, sort_ranges, merge_ranges, build, redact_for_log,
  authorization_length, bearer_behind, value_length, bearer_length, secret_length, secret_behind,
}
use intermcp.Server.Redaction.Ranges.{IsProper, is_covered, merge_sorted}
use intermcp.Server.Redaction.Reference.{mask, build-mask}

-- A scan finds at least one character.
abbrev FindsSome : (Text → Option ℕ) → Type 0
FindsSome find = (t : Text) (n : ℕ) → find t ≡ some n → 0 < n

value_length-FindsSome : (before : ℕ) → FindsSome (value_length before)
unfolding value_length
value_length-FindsSome before t n h = ground arith

bearer_behind-FindsSome : (before : ℕ) → FindsSome (bearer_behind before)
unfolding bearer_behind
bearer_behind-FindsSome before t n h =
    ground (arith, value_length-FindsSome (before + 6) (drop 6 t) n)

authorization-FindsSome : FindsSome authorization_length
unfolding authorization_length
authorization-FindsSome t n h =
    let rest = drop 14 t in
    let blanks = count_while is_blank rest in
    ground (arith, bearer_behind-FindsSome (14 + blanks) (drop blanks rest) n)

bearer-FindsSome : FindsSome bearer_length
unfolding bearer_length
bearer-FindsSome t n h = ground arith

secret_behind-FindsSome : (k : ℕ) → FindsSome (secret_behind k)
unfolding secret_behind
secret_behind-FindsSome k t n h = ground arith

secret-FindsSome : FindsSome secret_length
unfolding secret_length
secret-FindsSome t n h = secret_behind-FindsSome _ _ n h

matches-none :
    (find : Text → Option ℕ) (i c : ℕ) (s : Text)
    → find (c ∷ s) ≡ none
    → matches_of find i (c ∷ s) ≡ matches_of find (suc i) s
unfolding matches_of
matches-none find i c s h = ground arith

matches-some :
    (find : Text → Option ℕ) (i c : ℕ) (s : Text) (n : ℕ)
    → find (c ∷ s) ≡ some n
    → matches_of find i (c ∷ s) ≡ (i, i + n) ∷ matches_of find (suc i) s
unfolding matches_of
matches-some find i c s n h = ground arith

all_matches-passes :
    (s : Text)
    → all_matches s
      ≡ matches_of authorization_length 0 s
        ++ (matches_of bearer_length 0 s ++ matches_of secret_length 0 s)
unfolding all_matches
all_matches-passes s = refl

redact-build :
    (s : Text) → redact_for_log s ≡ build 0 (merge_ranges (sort_ranges (all_matches s))) s
unfolding redact_for_log
redact-build s = refl

zero_plus : (n : ℕ) → 0 + n ≡ n
zero_plus n = omega arith

length_of : (c : ℕ) (s : Text) → length (c ∷ s) ≡ suc (length s)
length_of c s = refl

matches-IsProper :
    (find : Text → Option ℕ)
    → FindsSome find
    → (i : ℕ) (s : Text) → All (IsProper (i + length s)) (matches_of find i s)
matches-IsProper find some_found i [] = unfold matches_of in tt
matches-IsProper find some_found i (c ∷ s) =
    let rest : All (IsProper (i + length (c ∷ s))) (matches_of find (suc i) s) =
      subst (λ n. All (IsProper n) (matches_of find (suc i) s)) (omega (arith, length_of c s))
        (matches-IsProper find some_found (suc i) s) in
    elim (Option-cases (find (c ∷ s))) [
      | inl nothing ↦ rw (matches-none find i c s nothing) rest
      | inr (n, e) ↦
          rw (matches-some find i c s n e)
            ((omega (arith, some_found (c ∷ s) n e), omega arith), rest)
    ]

all_matches-IsProper : (s : Text) → All (IsProper (length s)) (all_matches s)
all_matches-IsProper s =
    let P = IsProper (length s) in
    let pass = λ (find : Text → Option ℕ) (f : FindsSome find).
      subst (λ n. All (IsProper n) (matches_of find 0 s)) (zero_plus (length s))
        (matches-IsProper find f 0 s) in
    rw (all_matches-passes s) (
      All-append P (matches_of authorization_length 0 s)
        (matches_of bearer_length 0 s ++ matches_of secret_length 0 s)
        (pass authorization_length authorization-FindsSome)
        (All-append P (matches_of bearer_length 0 s) (matches_of secret_length 0 s)
          (pass bearer_length bearer-FindsSome) (pass secret_length secret-FindsSome)))

-- `redact_for_log` replaces every longest run of characters that lie in a match of one of its three
-- scans by one "[REDACTED]", and leaves all other characters as they are.
pub redact_for_log-mask :
    (s : Text) → redact_for_log s ≡ mask (is_covered (all_matches s)) false 0 s
redact_for_log-mask s =
    let m = merge_sorted (length s) (all_matches s) (all_matches-IsProper s) in
    redact-build s
    ∙ build-mask (is_covered (all_matches s)) (length s) 0
        (merge_ranges (sort_ranges (all_matches s))) s (omega arith) m.separated m.proper
        (λ i a. sym (m.same i))
