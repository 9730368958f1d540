-- ===== src/Cache/Index.antt =====
-- `BTreeMap<Instant, _>` as a list in the order of its keys: its first entry is the oldest.
use intermcp.Prelude.{
  ℕ, ◌≡◌, refl, some, List, [], ◌∷◌, arith, ltb, eqb, ◌==◌, nat_eq, if◌then◌else◌, lookup,
}

abbrev pub BTreeMap {ℓ} : Type ℓ → Type ℓ
BTreeMap V = List (ℕ × V)

module _ {ℓ} {V : Type ℓ} where
  unfoldable pub insert_sorted : ℕ → V → BTreeMap V → BTreeMap V
  insert_sorted t v [] = (t, v) ∷ []
  insert_sorted t v ((u, w) ∷ m) =
      if ltb t u
      then (t, v) ∷ (u, w) ∷ m
      else if eqb t u
      then (t, v) ∷ m
      else (u, w) ∷ insert_sorted t v m

  pub lookup-insert_sorted :
      (t u : ℕ) (v : V) (m : BTreeMap V)
      → lookup u (insert_sorted t v m) ≡ (if t == u then some v else lookup u m)
  unfolding lookup insert_sorted
  lookup-insert_sorted t u v [] = refl
  lookup-insert_sorted t u v ((x, w) ∷ m) = ground (arith, lookup-insert_sorted t u v m)
