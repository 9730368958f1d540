-- ===== src/Server/Redaction/Ranges.antt =====
-- src/server.rs: the ranges of `redact_for_log`, sorted and merged.
use intermcp.Prelude.{
  ◌≡◌, refl, ap, ◌∙◌, arith, ℕ, suc, ◌≤◌, ◌<◌, Bool, true, false, ◌&&◌, ◌||◌, List, [], ◌∷◌, leb,
  ltb, if◌then◌else◌, All, Bool-cases, inl, inr, leb→le,
}
use intermcp.Server.Redaction.{
  Range, is_before, insert_range, sort_ranges, merge_open, merge_ranges,
}

-- The place lies in one of the ranges.
abbrev pub covers : Range → ℕ → Bool
covers r i = leb r.0 i && ltb i r.1

abbrev pub is_covered : List Range → ℕ → Bool
is_covered [] i = false
is_covered (r ∷ rs) i = covers r i || is_covered rs i

or_assoc : (a b c : Bool) → ((a || b) || c) ≡ (a || (b || c))
or_assoc a b c = ground arith

or_swap : (a b c : Bool) → (a || (b || c)) ≡ (b || (a || c))
or_swap a b c = ground arith

-- Sorting keeps what is covered.
covered-insert :
    (p : Range) (qs : List Range) (i : ℕ)
    → is_covered (insert_range p qs) i ≡ (covers p i || is_covered qs i)
unfolding insert_range
covered-insert p [] i = refl
covered-insert p (q ∷ qs) i = elim (Bool-cases (is_before p q)) [
  | inl first ↦ rw first refl
  | inr later ↦
      rw (later, covered-insert p qs i) (or_swap (covers q i) (covers p i) (is_covered qs i))
]

covered-sort : (ps : List Range) (i : ℕ) → is_covered (sort_ranges ps) i ≡ is_covered ps i
unfolding sort_ranges
covered-sort [] i = refl
covered-sort (p ∷ ps) i =
    covered-insert p (sort_ranges ps) i ∙ ap (λ b. covers p i || b) (covered-sort ps i)

-- Ranges that are not empty and begin at `lo` or behind, and inside of `n` characters.
abbrev pub IsProper : ℕ → Range → Type 0
IsProper n r = (r.0 < r.1) × (r.0 < n)

-- The starts of the ranges do not fall, from `lo` on.
abbrev IsSorted : ℕ → List Range → Type 0
IsSorted lo [] = Unit
IsSorted lo (r ∷ rs) = (lo ≤ r.0) × IsSorted r.0 rs

-- Ranges with a gap before each.
abbrev pub IsSeparated : ℕ → List Range → Type 0
IsSeparated lo [] = Unit
IsSeparated lo (r ∷ rs) = (lo ≤ r.0) × IsSeparated (suc r.1) rs

IsSorted-lower : (lo lo' : ℕ) (rs : List Range) → lo' ≤ lo → IsSorted lo rs → IsSorted lo' rs
IsSorted-lower lo lo' [] h s = tt
IsSorted-lower lo lo' (r ∷ rs) h s = (omega arith, s.1)

before-le : (p q : Range) → is_before p q ≡ true → p.0 ≤ q.0
unfolding is_before
before-le p q h = ground arith

not_before-le : (p q : Range) → is_before p q ≡ false → q.0 ≤ p.0
unfolding is_before
not_before-le p q h = ground arith

insert-IsSorted :
    (p : Range) (qs : List Range) (lo : ℕ)
    → lo ≤ p.0
    → IsSorted lo qs
    → IsSorted lo (insert_range p qs)
unfolding insert_range
insert-IsSorted p [] lo h s = (h, tt)
insert-IsSorted p (q ∷ qs) lo h s = elim (Bool-cases (is_before p q)) [
  | inl first ↦ rw first (h, (before-le p q first, s.1))
  | inr later ↦ rw later (s.0, insert-IsSorted p qs q.0 (not_before-le p q later) s.1)
]

sort-IsSorted : (ps : List Range) → IsSorted 0 (sort_ranges ps)
unfolding sort_ranges
sort-IsSorted [] = tt
sort-IsSorted (p ∷ ps) = insert-IsSorted p (sort_ranges ps) 0 (omega arith) (sort-IsSorted ps)

insert-All :
    (P : Range → Type 0) (p : Range) (qs : List Range) → P p → All P qs → All P (insert_range p qs)
unfolding insert_range
insert-All P p [] h hs = (h, tt)
insert-All P p (q ∷ qs) h hs = elim (Bool-cases (is_before p q)) [
  | inl first ↦ rw first (h, hs)
  | inr later ↦ rw later (hs.0, insert-All P p qs h hs.1)
]

sort-All : (P : Range → Type 0) (ps : List Range) → All P ps → All P (sort_ranges ps)
unfolding sort_ranges
sort-All P [] h = tt
sort-All P (p ∷ ps) h = insert-All P p (sort_ranges ps) h.0 (sort-All P ps h.1)

-- A range that is extended by one which begins inside of it or at its end.
abbrev joined : Range → Range → Range
joined last r = (last.0, (if ltb last.1 r.1 then r.1 else last.1))

covers-joined :
    (last r : Range) (i : ℕ)
    → last.0 ≤ r.0
    → r.0 ≤ last.1
    → r.0 < r.1
    → covers (joined last r) i ≡ (covers last i || covers r i)
covers-joined last r i h k m = ground arith

merge-near :
    (last r : Range) (rs : List Range)
    → leb r.0 last.1 ≡ true
    → merge_open last (r ∷ rs) ≡ merge_open (joined last r) rs
unfolding merge_open
merge-near last r rs h = ground arith

merge-apart :
    (last r : Range) (rs : List Range)
    → leb r.0 last.1 ≡ false
    → merge_open last (r ∷ rs) ≡ last ∷ merge_open r rs
unfolding merge_open
merge-apart last r rs h = ground arith

merge-end : (last : Range) → merge_open last [] ≡ last ∷ []
unfolding merge_open
merge-end last = refl

covered-merge :
    (n : ℕ) (last : Range) (rs : List Range) (i : ℕ)
    → IsSorted last.0 rs
    → All (IsProper n) rs
    → is_covered (merge_open last rs) i ≡ (covers last i || is_covered rs i)
covered-merge n last [] i s p = rw (merge-end last) refl
covered-merge n last (r ∷ rs) i s p = elim (Bool-cases (leb r.0 last.1)) [
  | inl near ↦ rw (merge-near last r rs near) (
      covered-merge n (joined last r) rs i (IsSorted-lower r.0 last.0 rs s.0 s.1) p.1
      ∙ ap (λ b. b || is_covered rs i) (covers-joined last r i s.0 (leb→le r.0 last.1 near) p.0.0)
      ∙ or_assoc (covers last i) (covers r i) (is_covered rs i))
  | inr apart ↦ rw (merge-apart last r rs apart, covered-merge n r rs i s.1 p.1) refl
]

merge-IsSeparated :
    (n lo : ℕ) (last : Range) (rs : List Range)
    → lo ≤ last.0
    → IsSorted last.0 rs
    → IsSeparated lo (merge_open last rs)
merge-IsSeparated n lo last [] h s = rw (merge-end last) (h, tt)
merge-IsSeparated n lo last (r ∷ rs) h s = elim (Bool-cases (leb r.0 last.1)) [
  | inl near ↦
      rw (merge-near last r rs near)
        (merge-IsSeparated n lo (joined last r) rs h (IsSorted-lower r.0 last.0 rs s.0 s.1))
  | inr apart ↦
      rw (merge-apart last r rs apart) (h, merge-IsSeparated n (suc last.1) r rs (ground arith) s.1)
]

merge-IsProper :
    (n : ℕ) (last : Range) (rs : List Range)
    → IsProper n last
    → All (IsProper n) rs
    → All (IsProper n) (merge_open last rs)
merge-IsProper n last [] h p = rw (merge-end last) (h, tt)
merge-IsProper n last (r ∷ rs) h p = elim (Bool-cases (leb r.0 last.1)) [
  | inl near ↦
      rw (merge-near last r rs near) (merge-IsProper n (joined last r) rs (ground arith, h.1) p.1)
  | inr apart ↦ rw (merge-apart last r rs apart) (h, merge-IsProper n r rs p.0 p.1)
]

-- What the sorted and merged ranges are.
pub record AreMerged (n : ℕ) (ms rs : List Range) : Type 0 where
  pub same : (i : ℕ) → is_covered rs i ≡ is_covered ms i
  pub separated : IsSeparated 0 rs
  pub proper : All (IsProper n) rs

merge-AreMerged :
    (n : ℕ) (rs : List Range)
    → IsSorted 0 rs
    → All (IsProper n) rs
    → AreMerged n rs (merge_ranges rs)
unfolding merge_ranges
merge-AreMerged n [] s p = record { same = λ i. refl; separated = tt; proper = tt }
merge-AreMerged n (r ∷ rs) s p = record {
  same = λ i. covered-merge n r rs i s.1 p.1;
  separated = merge-IsSeparated n 0 r rs s.0 s.1;
  proper = merge-IsProper n r rs p.0 p.1;
}

pub merge_sorted :
    (n : ℕ) (ms : List Range) → All (IsProper n) ms → AreMerged n ms (merge_ranges (sort_ranges ms))
merge_sorted n ms p =
    let m = merge-AreMerged n (sort_ranges ms) (sort-IsSorted ms) (sort-All (IsProper n) ms p) in
    record { same = λ i. m.same i ∙ covered-sort ms i; separated = m.separated; proper = m.proper }
