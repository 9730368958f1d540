-- ===== src/Cache/Limits.antt =====
-- How the evictions of src/cache.rs keep within its limits.
use intermcp.Prelude.{
  ℕ, ◌-◌, ◌^◌, ◌≤◌, ◌<◌, ◌≡◌, refl, sym, arith, Text, [], ◌∷◌, Option, none, some, true, false,
  ==_refl, text_is_eq, lookup, remove, length, HasDistinctKeys, lookup-remove, Bool-cases, inl, inr,
  length-remove,
}
use mathlib.Core.Path.{subst}
use intermcp.Cache.{CacheEntry, ToolCache, Store, drop_entry, drop_existing, is_full, evict}
use intermcp.Cache.Index.{BTreeMap}
use intermcp.Cache.Sizes.{Entries, total, total-remove, remove-HasDistinctKeys}

-- The entries of a map, with the bytes counted for them, within the limits.
pub record Fits (max_bytes max_entries used : ℕ) (entries : Entries) : Type 0 where
  pub distinct : HasDistinctKeys entries
  pub counted : used ≡ total entries
  pub bytes : used ≤ max_bytes
  pub count : length entries ≤ max_entries

abbrev pub IsWithin : ToolCache → Type 0
IsWithin c = (c.max_bytes < 2 ^ 63) × Fits c.max_bytes c.max_entries c.bytes_used c.entries

module _ (max_bytes max_entries : ℕ) where
  abbrev pub FitsStore : Store → Type 0
  FitsStore s = Fits max_bytes max_entries s.used s.entries

  removed-Fits :
      (key : Text) (e : CacheEntry) (used : ℕ) (m : Entries)
      → lookup key m ≡ some e
      → Fits max_bytes max_entries used m
      → Fits max_bytes max_entries (used - e.size_bytes) (remove key m)
  removed-Fits key e used m h f = record {
    distinct = remove-HasDistinctKeys key m f.distinct;
    counted = omega (arith, total-remove key e m f.distinct h, f.counted);
    bytes = omega (arith, f.bytes);
    count = omega (arith, f.count, length-remove key m);
  }

  drop_entry-Fits :
      (key : Text) (o : Option CacheEntry) (used : ℕ) (m : Entries)
      → lookup key m ≡ o
      → Fits max_bytes max_entries used m
      → Fits max_bytes max_entries (drop_entry key o m used).1 (drop_entry key o m used).0
  unfolding drop_entry
  drop_entry-Fits key none used m h f = f
  drop_entry-Fits key (some e) used m h f = removed-Fits key e used m h f

  pub drop_existing-Fits :
      (key : Text) (o : Option CacheEntry) (s : Store)
      → lookup key s.entries ≡ o
      → FitsStore s
      → FitsStore (drop_existing key o s)
  unfolding drop_existing
  drop_existing-Fits key none s h f = f
  drop_existing-Fits key (some e) s h f = removed-Fits key e s.used s.entries h f

  drop_entry-absent :
      (key other : Text) (o : Option CacheEntry) (used : ℕ) (m : Entries)
      → lookup key m ≡ none
      → lookup key (drop_entry other o m used).0 ≡ none
  unfolding drop_entry
  drop_entry-absent key other none used m h = h
  drop_entry-absent key other (some e) used m h = ground (arith, lookup-remove other key m)

  pub drop_existing-absent :
      (key : Text) (o : Option CacheEntry) (s : Store)
      → lookup key s.entries ≡ o
      → lookup key (drop_existing key o s).entries ≡ none
  unfolding drop_existing
  drop_existing-absent key none s h = h
  drop_existing-absent key (some e) s h =
      ground (arith, lookup-remove key key s.entries, ==_refl key)

  -- One turn of the loop, when there is no room and when there is.
  evict_full :
      (size_bytes t : ℕ) (key : Text) (entries : Entries) (index : BTreeMap Text) (used : ℕ)
      → is_full max_bytes max_entries size_bytes entries used ≡ true
      → evict max_bytes max_entries size_bytes entries ((t, key) ∷ index) used
        ≡ evict max_bytes max_entries size_bytes
            (drop_entry key (lookup key entries) entries used).0
            index
            (drop_entry key (lookup key entries) entries used).1
  unfolding evict
  evict_full size_bytes t key entries index used h = ground arith

  evict_room :
      (size_bytes t : ℕ) (key : Text) (entries : Entries) (index : BTreeMap Text) (used : ℕ)
      → is_full max_bytes max_entries size_bytes entries used ≡ false
      → evict max_bytes max_entries size_bytes entries ((t, key) ∷ index) used
        ≡ record { entries = entries; index = (t, key) ∷ index; used = used }
  unfolding evict
  evict_room size_bytes t key entries index used h = ground arith

  -- Eviction keeps the limits, and brings no key back.
  pub evict-Fits :
      (size_bytes : ℕ) (entries : Entries) (index : BTreeMap Text) (used : ℕ)
      → Fits max_bytes max_entries used entries
      → FitsStore (evict max_bytes max_entries size_bytes entries index used)
  evict-Fits size_bytes entries [] used f = (unfold evict in f)
  evict-Fits size_bytes entries ((t, key) ∷ index) used f =
      let (entries', used') = drop_entry key (lookup key entries) entries used in
      let f' = drop_entry-Fits key (lookup key entries) used entries refl f in
      elim (Bool-cases (is_full max_bytes max_entries size_bytes entries used)) [
        | inl full ↦
            subst FitsStore (sym (evict_full size_bytes t key entries index used full))
              (evict-Fits size_bytes entries' index used' f')
        | inr room ↦ subst FitsStore (sym (evict_room size_bytes t key entries index used room)) f
      ]

  pub evict-absent :
      (size_bytes : ℕ) (entries : Entries) (index : BTreeMap Text) (used : ℕ) (k : Text)
      → lookup k entries ≡ none
      → lookup k (evict max_bytes max_entries size_bytes entries index used).entries ≡ none
  evict-absent size_bytes entries [] used k h = (unfold evict in h)
  evict-absent size_bytes entries ((t, key) ∷ index) used k h =
      let (entries', used') = drop_entry key (lookup key entries) entries used in
      let h' = drop_entry-absent k key (lookup key entries) used entries h in
      elim (Bool-cases (is_full max_bytes max_entries size_bytes entries used)) [
        | inl full ↦
            subst (λ (s : Store). lookup k s.entries ≡ none)
              (sym (evict_full size_bytes t key entries index used full))
              (evict-absent size_bytes entries' index used' k h')
        | inr room ↦
            subst (λ (s : Store). lookup k s.entries ≡ none)
              (sym (evict_room size_bytes t key entries index used room)) h
      ]
