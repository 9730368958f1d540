-- ===== src/Prelude/Maps.antt =====
-- `HashMap` as an association list. The order of its entries stands for the map's own order, which
-- the standard library leaves open.
use Prim.Native.Nat.{suc, ◌≤◌}
use mathlib.Core.Path.{◌≡◌, refl}
use mathlib.Core.Option.{Option, none, some}
use mathlib.Core.List.{List, [], ◌∷◌}
use native.Mathlib.Omega.{arith}
use intermcp.Prelude.Tests.{if◌then◌else◌, Bool-cases}
use mathlib.Core.Logic.{inl, inr}
use intermcp.Prelude.Keys.{Keyed, ◌==◌, ==_iff}
use intermcp.Prelude.Lists.{length}

abbrev pub HashMap {ℓ κ} : Type ℓ → Type κ → Type (ℓ ⊔ κ)
HashMap K V = List (K × V)

module _ {ℓ κ} {K : Type ℓ} ⦃keyed : Keyed K⦄ {V : Type κ} where
  unfoldable pub lookup : K → HashMap K V → Option V
  lookup key [] = none
  lookup key (entry ∷ rest) = if entry.0 == key then some entry.1 else lookup key rest

  unfoldable pub insert : K → V → HashMap K V → HashMap K V
  insert key value [] = (key, value) ∷ []
  insert key value (entry ∷ rest) =
      let kept = entry ∷ insert key value rest in
      if entry.0 == key then (key, value) ∷ rest else kept

  unfoldable pub remove : K → HashMap K V → HashMap K V
  remove k [] = []
  remove k ((j, w) ∷ m) = let rest = remove k m in if j == k then rest else (j, w) ∷ rest

  pub lookup-insert :
      (k j : K) (v : V) (m : HashMap K V)
      → lookup j (insert k v m) ≡ (if k == j then some v else lookup j m)
  unfolding lookup insert
  lookup-insert key other value [] = refl
  lookup-insert key other value (entry ∷ rest) = ground (
    arith,
    lookup-insert key other value rest,
    ==_iff key other,
    ==_iff entry.0 key,
    ==_iff entry.0 other,
  )

  pub lookup-remove :
      (k j : K) (m : HashMap K V) → lookup j (remove k m) ≡ (if k == j then none else lookup j m)
  unfolding lookup remove
  lookup-remove k j [] = ground arith
  lookup-remove k j ((i, w) ∷ m) =
      ground (arith, ==_iff k j, ==_iff i k, ==_iff i j, lookup-remove k j m)

  pub length-insert : (k : K) (v : V) (m : HashMap K V) → length (insert k v m) ≤ suc (length m)
  unfolding insert
  length-insert k v [] = omega arith
  length-insert k v ((j, w) ∷ m) = ground (arith, length-insert k v m)

  pub length-insert_new :
      (k : K) (v : V) (m : HashMap K V) → lookup k m ≡ none → length (insert k v m) ≡ suc (length m)
  unfolding insert lookup
  length-insert_new k v [] h = omega arith
  length-insert_new k v ((j, w) ∷ m) h = ground (arith, length-insert_new k v m)

  pub length-remove : (k : K) (m : HashMap K V) → length (remove k m) ≤ length m
  unfolding remove
  length-remove k [] = omega arith
  length-remove k ((j, w) ∷ m) = ground (arith, length-remove k m)

module _ {ℓ κ} {K : Type ℓ} ⦃keyed : Keyed K⦄ {V : Type κ} where
  -- No key stands twice, as in every `HashMap`.
  abbrev pub HasDistinctKeys : HashMap K V → Type κ
  HasDistinctKeys [] = Unit
  HasDistinctKeys ((k, v) ∷ m) = (lookup k m ≡ none) × HasDistinctKeys m

  pub insert-HasDistinctKeys :
      (k : K) (v : V) (m : HashMap K V) → HasDistinctKeys m → HasDistinctKeys (insert k v m)
  unfolding insert
  insert-HasDistinctKeys k v [] h = ((unfold lookup in refl), tt)
  insert-HasDistinctKeys k v ((j, w) ∷ m) (new, h) = elim (Bool-cases (j == k)) [
    | inl same ↦ rw same (rw ((==_iff j k).0 same) at new, h)
    | inr other ↦ rw other (
      (ground (arith, lookup-insert k j v m, ==_iff j k, ==_iff k j)),
      insert-HasDistinctKeys k v m h,
    )
  ]

pub ruleset map_laws = (lookup-insert, lookup-remove)
