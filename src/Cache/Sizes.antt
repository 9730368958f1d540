-- ===== src/Cache/Sizes.antt =====
-- The bytes that the entries of the cache (src/cache.rs) stand for.
use intermcp.Prelude.{
  ℕ, ◌+◌, ◌≡◌, refl, arith, Text, [], ◌∷◌, none, some, ◌==◌, ==_iff, text_is_eq, HashMap, lookup,
  insert, remove, length, HasDistinctKeys, lookup-remove, Bool-cases, inl, inr,
}
use intermcp.Cache.{CacheEntry}

abbrev pub Entries : Type 0
Entries = HashMap Text CacheEntry

abbrev pub total : Entries → ℕ
total [] = 0
total ((k, e) ∷ m) = e.size_bytes + total m

remove_absent : (k : Text) (m : Entries) → lookup k m ≡ none → remove k m ≡ m
unfolding lookup remove
remove_absent k [] h = refl
remove_absent k ((j, e) ∷ m) h = ground (arith, remove_absent k m)

pub total-remove :
    (k : Text) (e : CacheEntry) (m : Entries)
    → HasDistinctKeys m
    → lookup k m ≡ some e
    → total (remove k m) + e.size_bytes ≡ total m
unfolding lookup remove
total-remove k e [] d h = ground arith
total-remove k e ((j, f) ∷ m) (new, d) h =
    ground (arith, ==_iff j k, remove_absent k m, total-remove k e m d)

pub remove-HasDistinctKeys :
    (k : Text) (m : Entries) → HasDistinctKeys m → HasDistinctKeys (remove k m)
unfolding remove
remove-HasDistinctKeys k [] d = tt
remove-HasDistinctKeys k ((j, e) ∷ m) (new, d) = elim (Bool-cases (j == k)) [
  | inl same ↦ rw same (remove-HasDistinctKeys k m d)
  | inr other ↦ rw other ((ground (arith, lookup-remove k j m)), remove-HasDistinctKeys k m d)
]

pub total-insert_new :
    (k : Text) (e : CacheEntry) (m : Entries)
    → lookup k m ≡ none
    → total (insert k e m) ≡ total m + e.size_bytes
unfolding lookup insert
total-insert_new k e [] h = ground arith
total-insert_new k e ((j, f) ∷ m) h = ground (arith, total-insert_new k e m)

-- An entry that is replaced by one of its size.
pub insert_same_size :
    (k : Text) (e f : CacheEntry) (m : Entries)
    → lookup k m ≡ some f
    → e.size_bytes ≡ f.size_bytes
    → (total (insert k e m) ≡ total m) × (length (insert k e m) ≡ length m)
unfolding lookup insert
insert_same_size k e f [] h s = ground arith
insert_same_size k e f ((j, g) ∷ m) h s = ground (arith, insert_same_size k e f m)
