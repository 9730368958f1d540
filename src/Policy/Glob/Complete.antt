-- ===== src/Policy/Glob/Complete.antt =====
-- The matcher of src/policy.rs misses no match of a component that has no star in it.
use intermcp.Prelude.{
  ◌⊎◌, inl, inr, ℕ, zero, suc, ◌≡◌, ◌↔◌, refl, sym, ◌∙◌, arith, Bool, true, false, Option, none,
  some, List, [], ◌∷◌, ◌++◌, eqb, eqb_iff, Bool-cases, inl, inr, is_some,
}
use mathlib.Core.Path.{subst}
use mathlib.Core.List.{append_assoc, append-nil}
use intermcp.Policy.Glob.{
  Star, Turn, goes_on, fails, retry, turn, component_loop, component_fuel, component_match,
  or_false, star_byte, only_stars,
}
use intermcp.Policy.Glob.Matching.{
  Matches, done, same, star_stops, star_takes, StarMatches, component_match-Matches,
}
use intermcp.Policy.Glob.Fuel.{loops_end}
use intermcp.Policy.Glob.Inversion.{
  HasNoStar, head_same, byte_inv, strip, star_later, star_at_end, HasNoStar-left, HasNoStar-right,
}

-- From the last star on, value and pattern have run over the same plain bytes.
abbrev Aligned : List ℕ → List ℕ → Star → Type 0
Aligned v p none = HasNoStar v
Aligned v p (some (sp, mark)) = HasNoStar mark × ((w : List ℕ) × (mark ≡ w ++ v) × (sp ≡ w ++ p))

Aligned-HasNoStar : (v p : List ℕ) (star : Star) → Aligned v p star → HasNoStar v
Aligned-HasNoStar v p none n = n
Aligned-HasNoStar v p (some (sp, mark)) (n, (w, hm, hp)) =
    HasNoStar-right w v (subst HasNoStar hm n)

abbrev AlignedTurn : Turn → Type 0
AlignedTurn (goes_on v p star) = Aligned v p star
AlignedTurn fails = Unit

-- Nothing that a turn leads to matches.
abbrev Rejects : Turn → Type 0
Rejects (goes_on v p star) = (¬ Matches v p) × (¬ StarMatches star)
Rejects fails = Unit

retry-AlignedTurn : (v p : List ℕ) (star : Star) → Aligned v p star → AlignedTurn (retry star)
unfolding retry
retry-AlignedTurn v p none a = tt
retry-AlignedTurn v p (some (sp, [])) a = tt
retry-AlignedTurn v p (some (sp, m ∷ mark)) (n, (w, hm, hp)) = (n.1, ([], refl, refl))

one_more : (c : ℕ) (v p : List ℕ) (star : Star) → Aligned (c ∷ v) (c ∷ p) star → Aligned v p star
one_more c v p none n = n.1
one_more c v p (some (sp, mark)) (n, (w, hm, hp)) =
    (n, (w ++ c ∷ [], hm ∙ sym (append_assoc w (c ∷ []) v), hp ∙ sym (append_assoc w (c ∷ []) p)))

turn-AlignedTurn :
    (c : ℕ) (v p : List ℕ) (star : Star) → Aligned (c ∷ v) p star → AlignedTurn (turn c v p star)
unfolding turn
turn-AlignedTurn c v [] star a = retry-AlignedTurn (c ∷ v) [] star a
turn-AlignedTurn c v (d ∷ p) star a = elim (Bool-cases (eqb d c)) [
  | inl equal ↦
      rw equal
        (one_more c v p star (subst (λ x. Aligned (c ∷ v) (x ∷ p) star) ((eqb_iff d c).0 equal) a))
  | inr other ↦ elim (Bool-cases (eqb d star_byte)) [
    | inl new_star ↦
        rw (other, new_star) (Aligned-HasNoStar (c ∷ v) (d ∷ p) star a, ([], refl, refl))
    | inr plain ↦ rw (other, plain) (retry-AlignedTurn (c ∷ v) (d ∷ p) star a)
  ]
]

not_nil : (w : List ℕ) (c : ℕ) (v : List ℕ) → [] ≡ w ++ c ∷ v → ⊥
not_nil [] c v h = ground arith
not_nil (x ∷ w) c v h = ground arith

-- A star that meets a plain byte stops before it or takes it.
star_step :
    {x y : List ℕ}
    → Matches x y
    → (q : List ℕ) → y ≡ star_byte ∷ q
    → (c : ℕ) (v : List ℕ) → x ≡ c ∷ v
    → eqb c star_byte ≡ false
    → Matches x q ⊎ Matches v (star_byte ∷ q)
star_step done q h c v hx plain = absurd (ground arith)
star_step (same d {v = v'} m) q h c v hx plain = absurd (ground arith)
star_step (star_stops {v = v'} m) q h c v hx plain = inl (subst (Matches v') (head_same h).1 m)
star_step (star_takes d {v = v'} {p = p'} m) q h c v hx plain = inr (
    subst (λ z. Matches z (star_byte ∷ q)) (head_same hx).1
      (subst (λ z. Matches v' (star_byte ∷ z)) (head_same h).1 m))

-- Where the value cannot go on, and going back is of no use, there is no match.
retry-Rejects :
    (c : ℕ) (v p : List ℕ) (star : Star)
    → Aligned (c ∷ v) p star
    → ¬ Matches (c ∷ v) p
    → Rejects (retry star)
    → ¬ StarMatches star
unfolding retry
retry-Rejects c v p none a stuck r m = m
retry-Rejects c v p (some (sp, [])) (n, (w, hm, hp)) stuck r m = not_nil w c v hm
retry-Rejects c v p (some (sp, x ∷ mark)) (n, (w, hm, hp)) stuck (not_here, no_star) m =
    elim (star_step m sp refl x mark refl n.0) [
      | inl here ↦ stuck (
          strip w (c ∷ v) p (HasNoStar-left w (c ∷ v) (subst HasNoStar hm n))
            (subst (λ z. Matches z (w ++ p)) hm (subst (Matches (x ∷ mark)) hp here)))
      | inr later ↦ no_star later
    ]

no_empty : {x y : List ℕ} → Matches x y → y ≡ [] → (c : ℕ) (v : List ℕ) → x ≡ c ∷ v → ⊥
no_empty done h c v hx = ground arith
no_empty (same d m) h c v hx = ground arith
no_empty (star_stops m) h c v hx = ground arith
no_empty (star_takes d m) h c v hx = ground arith

old_star :
    (v p : List ℕ) (star : Star)
    → Aligned v (star_byte ∷ p) star
    → ¬ Matches v (star_byte ∷ p)
    → ¬ StarMatches star
old_star v p none a no_match m = m
old_star v p (some (sp, mark)) (n, (w, hm, hp)) no_match m = no_match (
    star_later w v p (subst HasNoStar hm n) (
      subst (λ z. Matches z (star_byte ∷ (w ++ star_byte ∷ p))) hm
        (subst (λ z. Matches mark (star_byte ∷ z)) hp m)))

turn-Rejects :
    (c : ℕ) (v p : List ℕ) (star : Star)
    → Aligned (c ∷ v) p star
    → Rejects (turn c v p star)
    → (¬ Matches (c ∷ v) p) × (¬ StarMatches star)
unfolding turn
turn-Rejects c v [] star a r =
    let stuck : ¬ Matches (c ∷ v) [] = λ m. no_empty m refl c v refl in
    (stuck, retry-Rejects c v [] star a stuck r)
turn-Rejects c v (d ∷ p) star a r = elim (Bool-cases (eqb d c)) [
  | inl equal ↦
      let plain : eqb d star_byte ≡ false =
        subst (λ z. eqb z star_byte ≡ false) (sym ((eqb_iff d c).0 equal))
          (Aligned-HasNoStar (c ∷ v) (d ∷ p) star a).0 in
      let (rest, no_star) : (¬ Matches v p) × (¬ StarMatches star) = (rw equal at r) in
      (
        (λ m.
            let (v', h, m') = byte_inv m d p refl plain in
            rest (subst (λ z. Matches z p) (sym (head_same h).1) m')),
        no_star,
      )
  | inr other ↦ elim (Bool-cases (eqb d star_byte)) [
    | inl new_star ↦
        let (here, there) : (¬ Matches (c ∷ v) p) × (¬ Matches (c ∷ v) (star_byte ∷ p)) =
          (rw (other, new_star) at r) in
        let is_star = (eqb_iff d star_byte).0 new_star in
        (
          (λ m. there (subst (λ z. Matches (c ∷ v) (z ∷ p)) is_star m)),
          old_star (c ∷ v) p star (subst (λ z. Aligned (c ∷ v) (z ∷ p) star) is_star a) there,
        )
    | inr plain ↦
        let stuck : ¬ Matches (c ∷ v) (d ∷ p) = λ m.
          let (v', h, m') = byte_inv m d p refl plain in ground (arith, (head_same h).0, other) in
        (stuck, retry-Rejects c v (d ∷ p) star a stuck (rw (other, plain) at r))
  ]
]

Matches-only_stars : {x y : List ℕ} → Matches x y → x ≡ [] → only_stars y ≡ true
unfolding only_stars
Matches-only_stars done h = refl
Matches-only_stars (same c m) h = absurd (ground arith)
Matches-only_stars (star_stops m) h = Matches-only_stars m h
Matches-only_stars (star_takes c m) h = absurd (ground arith)

end_rejects :
    (p : List ℕ) (star : Star)
    → Aligned [] p star
    → only_stars p ≡ false
    → (¬ Matches [] p) × (¬ StarMatches star)
end_rejects p none a h = ((λ m. ground (arith, Matches-only_stars m refl)), λ m. m)
end_rejects p (some (sp, mark)) (n, (w, hm, hp)) h =
    let plain_end : mark ≡ w = hm ∙ append-nil w in
    let no_match : ¬ Matches [] p = λ m. ground (arith, Matches-only_stars m refl) in
    (
      no_match,
      λ m. no_match (
          star_at_end w p (subst HasNoStar plain_end n) (
            subst (λ z. Matches z (star_byte ∷ (w ++ p))) plain_end
              (subst (λ z. Matches mark (star_byte ∷ z)) hp m))),
    )

turn_false :
    (fuel : ℕ) (t : Turn)
    → ((v p : List ℕ) (star : Star)
        → component_loop fuel v p star ≡ some false
        → Aligned v p star
        → (¬ Matches v p) × (¬ StarMatches star))
    → AlignedTurn t
    → (elim t [ goes_on v' p' star' ↦ component_loop fuel v' p' star' | fails ↦ some false ])
      ≡ some false
    → Rejects t
turn_false fuel (goes_on v p star) ih a h = ih v p star h a
turn_false fuel fails ih a h = tt

loop_false :
    (fuel : ℕ) (v p : List ℕ) (star : Star)
    → component_loop fuel v p star ≡ some false
    → Aligned v p star
    → (¬ Matches v p) × (¬ StarMatches star)
unfolding component_loop
loop_false zero v p star h a = absurd (ground arith)
loop_false (suc fuel) [] p star h a = end_rejects p star a (cc)
loop_false (suc fuel) (c ∷ v) p star h a = turn-Rejects c v p star a (
    turn_false fuel (turn c v p star) (λ v' p' star' h' a'. loop_false fuel v' p' star' h' a')
      (turn-AlignedTurn c v p star a) h)

found : (o : Option Bool) → is_some o ≡ true → ¬ (o ≡ some false) → or_false o ≡ true
found none some_result no_false = absurd (ground arith)
found (some true) some_result no_false = refl
found (some false) some_result no_false = absurd (no_false refl)

-- A component without a star is accepted exactly when the pattern describes it, with a star for any
-- bytes and every other byte for itself.
pub component_match-Matches_iff :
    (v p : List ℕ) → HasNoStar v → (component_match v p ≡ true) ↔ Matches v p
component_match-Matches_iff v p n = (
  component_match-Matches v p,
  λ m.
      (unfold component_match in
        found (component_loop (component_fuel v p) v p none) (loops_end v p [] []).0
          (λ h. (loop_false (component_fuel v p) v p none h n).0 m)),
)
