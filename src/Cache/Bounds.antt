-- ===== src/Cache/Bounds.antt =====
-- The limits that the cache of src/cache.rs keeps on bytes and entries.
use intermcp.Prelude.{
  ℕ, ◌^◌, ◌≤◌, ◌<◌, ◌≡◌, refl, sym, arith, Text, List, [], ◌∷◌, Option, none, some, text_is_eq,
  lookup, length, Bool-cases, inl, inr, add_u64, add_u64-eq, length-insert_new,
  insert-HasDistinctKeys, ltb, leb, len, leb→le, ltb→lt, ◌∙◌, ◌&&◌,
}
use mathlib.Core.Bool.{and-eq-true_iff}
use intermcp.Json.{Value}
use intermcp.Cache.{
  CacheEntry, ToolCache, Store, drop_existing, touch, get, store, make_room, set, compute_key,
  estimated_size, with_max_bytes, with_max_entries,
}
use intermcp.Cache.Sizes.{total-insert_new, insert_same_size}
use intermcp.Cache.Limits.{
  IsWithin, FitsStore, drop_existing-Fits, drop_existing-absent, evict-Fits, evict-absent,
}

pub data Use : Type 0 where
  gets : ℕ → Text → Value → Use
  sets : ℕ → Text → (arguments result : Value) → Option ℕ → Use

-- Every operation keeps the limits.
module _ (json_text : Value → Text) where
  touch-IsWithin :
      (now : ℕ) (key : Text) (o : Option CacheEntry) (c : ToolCache)
      → lookup key c.entries ≡ o
      → IsWithin c
      → IsWithin (touch json_text now key o c).0
  touch-IsWithin now key none c h v = (unfold touch in v)
  touch-IsWithin now key (some e) c h (small, f) =
      let e' : CacheEntry = record e { last_accessed = now } in
      let (same, length_same) = insert_same_size key e' e c.entries h refl in
      elim (Bool-cases (ltb now e.expires_at)) [
        | inl fresh ↦
            (unfold touch in
              rw fresh (
                small,
                record {
                  distinct = insert-HasDistinctKeys key e' c.entries f.distinct;
                  counted = f.counted ∙ sym same;
                  bytes = f.bytes;
                  count = omega (arith, length_same, f.count);
                },
              ))
        | inr expired ↦ (unfold touch in rw expired (small, f))
      ]

  make_room-Fits :
      (key : Text) (size_bytes : ℕ) (c : ToolCache)
      → IsWithin c
      → FitsStore c.max_bytes c.max_entries (make_room json_text key size_bytes c)
        × (lookup key (make_room json_text key size_bytes c).entries ≡ none)
  unfolding make_room
  make_room-Fits key size_bytes c (small, f) =
      let s : Store = record { entries = c.entries; index = c.access_index; used = c.bytes_used } in
      let s' = drop_existing key (lookup key c.entries) s in
      (
        evict-Fits c.max_bytes c.max_entries size_bytes s'.entries s'.index s'.used
            (drop_existing-Fits c.max_bytes c.max_entries key (lookup key c.entries) s refl f),
        evict-absent c.max_bytes c.max_entries size_bytes s'.entries s'.index s'.used key
            (drop_existing-absent c.max_bytes c.max_entries key (lookup key c.entries) s refl),
      )

  store-IsWithin :
      (now expires_at : ℕ) (key : Text) (result : Value) (size_bytes : ℕ) (s : Store)
      (c : ToolCache)
      → c.max_bytes < 2 ^ 63
      → size_bytes ≤ c.max_bytes
      → FitsStore c.max_bytes c.max_entries s
      → lookup key s.entries ≡ none
      → IsWithin (store json_text now expires_at key result size_bytes s c)
  store-IsWithin now expires_at key result size_bytes s c small le f absent =
      let e : CacheEntry = record {
        result = result;
        size_bytes = size_bytes;
        last_accessed = now;
        expires_at = expires_at;
      } in
      let sum = add_u64-eq s.used size_bytes (omega (arith, f.bytes, small, le)) in
      elim (Bool-cases
        (leb (add_u64 s.used size_bytes) c.max_bytes && ltb (length s.entries) c.max_entries)) [
          | inl room ↦
              let (fits, fewer) =
                (and-eq-true_iff (leb (add_u64 s.used size_bytes) c.max_bytes)
                    (ltb (length s.entries) c.max_entries)).0
                  room in
              (unfold store in
                rw room (
                  small,
                  record {
                    distinct = insert-HasDistinctKeys key e s.entries f.distinct;
                    counted =
                        omega (arith, sum, total-insert_new key e s.entries absent, f.counted);
                    bytes = leb→le (add_u64 s.used size_bytes) c.max_bytes fits;
                    count = omega (
                      arith,
                      length-insert_new key e s.entries absent,
                      ltb→lt (length s.entries) c.max_entries fewer,
                    );
                  },
                ))
          | inr full ↦ (unfold store in rw full (small, f))
        ]

  set-IsWithin :
      (now : ℕ) (tool_name : Text) (arguments result : Value) (ttl : Option ℕ) (c : ToolCache)
      → IsWithin c
      → IsWithin (set json_text now tool_name arguments result ttl c)
  set-IsWithin now tool_name arguments result ttl c v =
      let key = compute_key json_text tool_name arguments in
      let size_bytes = add_u64 (estimated_size result) (len key) in
      let (f, absent) = make_room-Fits key size_bytes c v in
      elim (Bool-cases (ltb c.max_bytes size_bytes)) [
        | inl big ↦ (unfold set in rw big v)
        | inr fits ↦
            (unfold set in
              rw fits (
                store-IsWithin now _ key result size_bytes (make_room json_text key size_bytes c) c
                  v.0 (ground arith) f absent))
      ]

  -- What a session does with its cache.
  abbrev pub use_one : Use → ToolCache → ToolCache
  use_one (gets now tool_name arguments) c = (get json_text now tool_name arguments c).0
  use_one (sets now tool_name arguments result ttl) c =
      set json_text now tool_name arguments result ttl c

  abbrev pub use_all : List Use → ToolCache → ToolCache
  use_all [] c = c
  use_all (u ∷ us) c = use_all us (use_one u c)

  use_one-IsWithin : (u : Use) (c : ToolCache) → IsWithin c → IsWithin (use_one u c)
  use_one-IsWithin (gets now tool_name arguments) c v =
      (unfold get in touch-IsWithin now (compute_key json_text tool_name arguments) _ c refl v)
  use_one-IsWithin (sets now tool_name arguments result ttl) c v =
      set-IsWithin now tool_name arguments result ttl c v

  kept : (us : List Use) (c : ToolCache) → IsWithin c → IsWithin (use_all us c)
  kept [] c v = v
  kept (u ∷ us) c v = kept us (use_one u c) (use_one-IsWithin u c v)

  -- In a cache that is made with fewer than 2^63 bytes, whatever is read and stored, the bytes
  -- counted are the sum of the sizes of the entries and at most the limit, the entries are at most
  -- the limit, and no key stands twice.
  pub cache-IsWithin :
      (default_ttl max_bytes max_entries : ℕ) (us : List Use)
      → max_bytes < 2 ^ 63
      → IsWithin (use_all us (with_max_entries max_entries (with_max_bytes default_ttl max_bytes)))
  cache-IsWithin default_ttl max_bytes max_entries us small =
      kept us (with_max_entries max_entries (with_max_bytes default_ttl max_bytes)) (
        unfold with_max_entries with_max_bytes in
        (small, record { distinct = tt; counted = refl; bytes = omega arith; count = omega arith }))
