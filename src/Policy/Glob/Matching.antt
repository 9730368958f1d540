-- ===== src/Policy/Glob/Matching.antt =====
-- What `component_match` (src/policy.rs) accepts, against a description of matching.
use intermcp.Prelude.{
  ℕ, zero, suc, ◌≡◌, sym, ap, arith, Bool, true, false, Option, none, some, List, [], ◌∷◌, eqb,
  eqb_iff, Bool-cases, inl, inr,
}
use mathlib.Core.Path.{subst}
use intermcp.Policy.Glob.{
  Star, Turn, goes_on, fails, retry, turn, component_loop, component_fuel, component_match,
  or_false, star_byte, only_stars,
}

-- A pattern's star stands for any bytes, every other byte for itself.
pub data Matches : (value pattern : List ℕ) → Type 0 where
  done : Matches [] []
  same : (c : ℕ) {v p : List ℕ} → Matches v p → Matches (c ∷ v) (c ∷ p)
  star_stops : {v p : List ℕ} → Matches v p → Matches v (star_byte ∷ p)
  star_takes : (c : ℕ) {v p : List ℕ} → Matches v (star_byte ∷ p) → Matches (c ∷ v) (star_byte ∷ p)

-- A match from the last star on.
abbrev pub StarMatches : Star → Type 0
StarMatches none = ⊥
StarMatches (some (sp, mark)) = Matches mark (star_byte ∷ sp)

same_byte : (c d : ℕ) {v p : List ℕ} → eqb d c ≡ true → Matches v p → Matches (c ∷ v) (d ∷ p)
same_byte c d {v} {p} h m =
    subst (λ x. Matches (c ∷ v) (x ∷ p)) (sym ((eqb_iff d c).0 h)) (same c m)

as_star :
    (d : ℕ) {v p : List ℕ} → eqb d star_byte ≡ true → Matches v (star_byte ∷ p) → Matches v (d ∷ p)
as_star d {v} {p} h m = subst (λ x. Matches v (x ∷ p)) (sym ((eqb_iff d star_byte).0 h)) m

only_stars-Matches : (p : List ℕ) → only_stars p ≡ true → Matches [] p
unfolding only_stars
only_stars-Matches [] h = done
only_stars-Matches (c ∷ p) h = elim (Bool-cases (eqb c star_byte)) [
  | inl star ↦ as_star c star (star_stops (only_stars-Matches p (ground arith)))
  | inr other ↦ absurd (ground arith)
]

-- If what a turn leads to matches, so does what it starts from.
abbrev LeadsBack : Type 0 → Turn → Type 0
LeadsBack G (goes_on v p star) = (Matches v p → G) × (StarMatches star → G)
LeadsBack G fails = Unit

retry-LeadsBack : (G : Type 0) (star : Star) → (StarMatches star → G) → LeadsBack G (retry star)
unfolding retry
retry-LeadsBack G none g = tt
retry-LeadsBack G (some (sp, [])) g = tt
retry-LeadsBack G (some (sp, m ∷ mark)) g =
    ((λ h. g (star_takes m (star_stops h))), (λ h. g (star_takes m h)))

turn-LeadsBack :
    (G : Type 0) (c : ℕ) (v p : List ℕ) (star : Star)
    → (Matches (c ∷ v) p → G)
    → (StarMatches star → G)
    → LeadsBack G (turn c v p star)
unfolding turn
turn-LeadsBack G c v [] star f g = retry-LeadsBack G star g
turn-LeadsBack G c v (d ∷ p) star f g = elim (Bool-cases (eqb d c)) [
  | inl equal ↦ rw equal ((λ h. f (same_byte c d equal h)), g)
  | inr other ↦ elim (Bool-cases (eqb d star_byte)) [
    | inl new_star ↦
        rw (other, new_star)
          ((λ h. f (as_star d new_star (star_stops h))), (λ h. f (as_star d new_star h)))
    | inr plain ↦ rw (other, plain) (retry-LeadsBack G star g)
  ]
]

turn_matches :
    (G : Type 0) (fuel : ℕ) (t : Turn)
    → ((v p : List ℕ) (star : Star)
        → component_loop fuel v p star ≡ some true
        → (Matches v p → G)
        → (StarMatches star → G)
        → G)
    → LeadsBack G t
    → (elim t [ goes_on v' p' star' ↦ component_loop fuel v' p' star' | fails ↦ some false ])
      ≡ some true
    → G
turn_matches G fuel (goes_on v p star) ih (f, g) h = ih v p star h f g
turn_matches G fuel fails ih l h = absurd (ground arith)

loop_matches :
    (G : Type 0) (fuel : ℕ) (v p : List ℕ) (star : Star)
    → component_loop fuel v p star ≡ some true
    → (Matches v p → G)
    → (StarMatches star → G)
    → G
unfolding component_loop
loop_matches G zero v p star h f g = absurd (ground arith)
loop_matches G (suc fuel) [] p star h f g = f (only_stars-Matches p (cc))
loop_matches G (suc fuel) (c ∷ v) p star h f g =
    turn_matches G fuel (turn c v p star)
      (λ v' p' star' h' f' g'. loop_matches G fuel v' p' star' h' f' g')
      (turn-LeadsBack G c v p star f g) h

or_false-true : (o : Option Bool) → or_false o ≡ true → o ≡ some true
or_false-true none h = absurd (ground arith)
or_false-true (some b) h = ap (λ x. some x) h

-- A component that the matcher accepts is one that the pattern describes, with a star for any bytes
-- and every other byte for itself.
pub component_match-Matches : (v p : List ℕ) → component_match v p ≡ true → Matches v p
component_match-Matches v p h =
    loop_matches (Matches v p) (component_fuel v p) v p none
      (or_false-true _ (unfold component_match in h)) (λ m. m) (λ b. absurd b)
