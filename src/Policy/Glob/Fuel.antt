-- ===== src/Policy/Glob/Fuel.antt =====
-- The loops of `glob_like_match` (src/policy.rs) end within their fuel.
use intermcp.Policy.Glob.{
  globstar_turn, Star, Turn, goes_on, fails, retry, turn, component_loop, component_fuel, star_byte,
  PathTurn, walks, ends, path_retry, path_turn, path_loop, path_fuel, component_match,
}
use intermcp.Prelude.{
  Bool-cases, inl, inr, ℕ, zero, suc, ◌+◌, ◌*◌, ◌≤◌, ◌<◌, ◌≡◌, refl, arith, Text, codes, true,
  false, Option, none, some, List, [], ◌∷◌, ◌==◌, text_is_eq, eqb, length, as_bytes, is_some,
}

-- The turns that are left at most, for a bound `k` on the length of value and pattern together.
le-times : (a b k : ℕ) → a ≤ b → a * k ≤ b * k
le-times zero b k h = omega arith
le-times (suc a) zero k h = omega arith
le-times (suc a) (suc b) k h = omega (arith, le-times a b k (omega (arith, h)))

abbrev turns : ℕ → List ℕ → List ℕ → Star → ℕ
turns k v p none = length v * k + length v + length p
turns k v p (some (sp, mark)) = length mark * k + length v + length p

abbrev Fits : ℕ → List ℕ → Star → Type 0
Fits k v none = length v < k
Fits k v (some (sp, mark)) = (length mark + length sp < k) × (length v ≤ length mark)

abbrev IsLess : ℕ → ℕ → Turn → Type 0
IsLess k n (goes_on v p star) = (turns k v p star < n) × Fits k v star × (length v + length p < k)
IsLess k n fails = Unit

retry-IsLess :
    (k : ℕ) (c : ℕ) (v p : List ℕ) (star : Star)
    → Fits k (c ∷ v) star
    → IsLess k (turns k (c ∷ v) p star) (retry star)
unfolding retry
retry-IsLess k c v p none f = tt
retry-IsLess k c v p (some (sp, [])) f = tt
retry-IsLess k c v p (some (sp, m ∷ mark)) (small, le) =
    (omega (arith, small), (omega (arith, small), omega arith), omega (arith, small))

turn-IsLess :
    (k : ℕ) (c : ℕ) (v p : List ℕ) (star : Star)
    → Fits k (c ∷ v) star
    → length (c ∷ v) + length p < k
    → IsLess k (turns k (c ∷ v) p star) (turn c v p star)
unfolding turn
turn-IsLess k c v [] star f small = retry-IsLess k c v [] star f
turn-IsLess k c v (d ∷ p) none f small =
    let back = retry-IsLess k c v (d ∷ p) none f in
    elim (Bool-cases (eqb d c)) [
      | inl same ↦ rw same (omega (arith, small), omega (arith, small), omega (arith, small))
      | inr other ↦ elim (Bool-cases (eqb d star_byte)) [
        | inl new_star ↦
            rw (other, new_star)
              (omega (arith, small), (omega (arith, small), omega arith), omega (arith, small))
        | inr plain ↦ rw (other, plain) back
      ]
    ]
turn-IsLess k c v (d ∷ p) (some (sp, mark)) f small =
    let back = retry-IsLess k c v (d ∷ p) (some (sp, mark)) f in
    elim (Bool-cases (eqb d c)) [
      | inl same ↦ rw same (omega (arith, small), (f.0, omega (arith, f.1)), omega (arith, small))
      | inr other ↦ elim (Bool-cases (eqb d star_byte)) [
        | inl new_star ↦
            rw (other, new_star)
              (
                omega (arith, small, le-times (suc (length v)) (length mark) k f.1),
                (omega (arith, small), omega arith),
                omega (arith, small),
              )
        | inr plain ↦ rw (other, plain) back
      ]
    ]

-- The rest of the loop ends, if it does from every position with fewer turns.
turn_ends :
    (fuel k n : ℕ) (t : Turn)
    → ((v p : List ℕ) (star : Star)
        → Fits k v star
        → length v + length p < k
        → turns k v p star < fuel
        → is_some (component_loop fuel v p star) ≡ true)
    → IsLess k n t
    → n ≤ fuel
    → is_some
        (elim t [ goes_on v' p' star' ↦ component_loop fuel v' p' star' | fails ↦ some false ])
      ≡ true
turn_ends fuel k n (goes_on v p star) ih (less, f, small) le = ih v p star f small (omega arith)
turn_ends fuel k n fails ih less le = refl

component_ends :
    (fuel k : ℕ) (v p : List ℕ) (star : Star)
    → Fits k v star
    → length v + length p < k
    → turns k v p star < fuel
    → is_some (component_loop fuel v p star) ≡ true
unfolding component_loop
component_ends zero k v p star f small enough = ground arith
component_ends (suc fuel) k [] p star f small enough = refl
component_ends (suc fuel) k (c ∷ v) p star f small enough =
    turn_ends fuel k (turns k (c ∷ v) p star) (turn c v p star)
      (λ v' p' star' f' small' enough'. component_ends fuel k v' p' star' f' small' enough')
      (turn-IsLess k c v p star f small) (omega arith)

-- The same for the loop over the components of a path.
abbrev PathFits : ℕ → List Text → Option (List Text) → Type 0
PathFits k ps none = length ps ≤ k
PathFits k ps (some gs) = (length ps ≤ k) × (length gs ≤ k)

abbrev path_turns : ℕ → List Text → List Text → ℕ
path_turns k vs ps = length vs * (k + 1) + length ps

abbrev PathLess : ℕ → ℕ → PathTurn → Type 0
PathLess k n (walks vs ps globstar) = (path_turns k vs ps < n) × PathFits k ps globstar
PathLess k n (ends b) = Unit

path_retry-PathLess :
    (k : ℕ) (v : Text) (vs ps : List Text) (globstar : Option (List Text))
    → PathFits k ps globstar
    → PathLess k (path_turns k (v ∷ vs) ps) (path_retry vs globstar)
unfolding path_retry
path_retry-PathLess k v vs ps none f = tt
path_retry-PathLess k v vs ps (some gs) f = (omega (arith, f.0, f.1), (f.1, f.1))

globstar_turn-PathLess :
    (k : ℕ) (p : Text) (vs ps : List Text)
    → length (p ∷ ps) ≤ k
    → PathLess k (path_turns k vs (p ∷ ps)) (globstar_turn vs ps)
unfolding globstar_turn
globstar_turn-PathLess k p vs [] f = tt
globstar_turn-PathLess k p vs (q ∷ ps) f = (omega (arith, f), (omega (arith, f), omega (arith, f)))

PathFits-bound :
    (k : ℕ) (ps : List Text) (globstar : Option (List Text))
    → PathFits k ps globstar
    → length ps ≤ k
PathFits-bound k ps none f = f
PathFits-bound k ps (some gs) f = f.0

PathFits-tail :
    (k : ℕ) (p : Text) (ps : List Text) (globstar : Option (List Text))
    → PathFits k (p ∷ ps) globstar
    → PathFits k ps globstar
PathFits-tail k p ps none f = omega (arith, f)
PathFits-tail k p ps (some gs) f = (omega (arith, f.0), f.1)

path_turn-PathLess :
    (k : ℕ) (v : Text) (vs ps : List Text) (globstar : Option (List Text))
    → PathFits k ps globstar
    → PathLess k (path_turns k (v ∷ vs) ps) (path_turn v vs ps globstar)
unfolding path_turn
path_turn-PathLess k v vs [] globstar f = path_retry-PathLess k v vs [] globstar f
path_turn-PathLess k v vs (p ∷ ps) globstar f =
    let small = PathFits-bound k (p ∷ ps) globstar f in
    elim (Bool-cases (p == codes "**")) [
      | inl globs ↦ rw globs (globstar_turn-PathLess k p (v ∷ vs) ps small)
      | inr plain ↦ elim (Bool-cases (component_match (as_bytes v) (as_bytes p))) [
        | inl matched ↦ rw (plain, matched) (omega (arith, small), PathFits-tail k p ps globstar f)
        | inr unmatched ↦ rw (plain, unmatched) (path_retry-PathLess k v vs (p ∷ ps) globstar f)
      ]
    ]

path_turn_ends :
    (fuel k n : ℕ) (t : PathTurn)
    → ((vs ps : List Text) (globstar : Option (List Text))
        → PathFits k ps globstar
        → path_turns k vs ps < fuel
        → is_some (path_loop fuel vs ps globstar) ≡ true)
    → PathLess k n t
    → n ≤ fuel
    → is_some
        (elim t [ walks vs' ps' globstar' ↦ path_loop fuel vs' ps' globstar' | ends b ↦ some b ])
      ≡ true
path_turn_ends fuel k n (walks vs ps globstar) ih (less, f) le = ih vs ps globstar f (omega arith)
path_turn_ends fuel k n (ends b) ih less le = refl

path_ends :
    (fuel k : ℕ) (vs ps : List Text) (globstar : Option (List Text))
    → PathFits k ps globstar
    → path_turns k vs ps < fuel
    → is_some (path_loop fuel vs ps globstar) ≡ true
unfolding path_loop
path_ends zero k vs ps globstar f enough = ground arith
path_ends (suc fuel) k [] ps globstar f enough = refl
path_ends (suc fuel) k (v ∷ vs) ps globstar f enough =
    path_turn_ends fuel k (path_turns k (v ∷ vs) ps) (path_turn v vs ps globstar)
      (λ vs' ps' globstar' f' enough'. path_ends fuel k vs' ps' globstar' f' enough')
      (path_turn-PathLess k v vs ps globstar f) (omega arith)

-- Both loops of the glob matcher end within the fuel that they are given: that over the bytes of a
-- component and its pattern, and that over the components of a path and its pattern.
pub loops_end :
    (value pattern : List ℕ) (values patterns : List Text)
    → (is_some (component_loop (component_fuel value pattern) value pattern none) ≡ true)
      × (is_some (path_loop (path_fuel values patterns) values patterns none) ≡ true)
loops_end value pattern values patterns = (
  component_ends (component_fuel value pattern) (length value + length pattern + 1) value pattern
      none (omega arith) (omega arith) (omega arith),
  path_ends (path_fuel values patterns) (length patterns) values patterns none (omega arith)
      (omega arith),
)
