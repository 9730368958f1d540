-- ===== src/Cache.antt =====
-- src/cache.rs: the cache of tool results, with expiry and eviction in the order of last access.
-- Instants and durations are nanoseconds; `json_text` is `serde_json`'s printer, a parameter.
pub mod Index
pub mod Sizes
pub mod Limits
pub mod Bounds
mod Tests
use intermcp.Prelude.{
  ℕ, ◌+◌, ◌-◌, ◌*◌, Text, codes, Bool, Option, none, some, List, [], ◌∷◌, ◌++◌, ltb, leb, ◌==◌,
  ◌||◌, ◌&&◌, text_is_eq, nat_eq, if◌then◌else◌, HashMap, lookup, insert, remove, length, len,
  add_u64, true, false,
}
use intermcp.Json.{
  Value, null, bool, number, string, array, object, Items, nil, cons, Fields, end, field,
}
use intermcp.Cache.Index.{BTreeMap, insert_sorted}

pub record CacheEntry : Type 0 where
  pub result : Value
  pub size_bytes : ℕ
  pub last_accessed : ℕ
  pub expires_at : ℕ

pub record ToolCache : Type 0 where
  pub entries : HashMap Text CacheEntry
  pub access_index : BTreeMap Text
  pub default_ttl : ℕ
  pub max_bytes : ℕ
  pub max_entries : ℕ
  pub bytes_used : ℕ
  pub hits : ℕ
  pub misses : ℕ

unfoldable pub with_max_bytes : ℕ → ℕ → ToolCache
with_max_bytes default_ttl max_bytes = record {
  entries = [];
  access_index = [];
  default_ttl = default_ttl;
  max_bytes = max_bytes;
  max_entries = 1000;
  bytes_used = 0;
  hits = 0;
  misses = 0;
}

unfoldable pub new : ℕ → ToolCache
unfolding with_max_bytes
new default_ttl = with_max_bytes default_ttl (50 * 1024 * 1024)

unfoldable pub with_max_entries : ℕ → ToolCache → ToolCache
with_max_entries max_entries c = record c { max_entries = max_entries }

unfoldable mutual
  pub estimated_size : Value → ℕ
  estimated_size null = 8
  estimated_size (bool b) = 8
  estimated_size (number n) = 16
  estimated_size (string s) = len s + 24
  estimated_size (array vs) = 24 + items_size vs
  estimated_size (object fs) = 24 + fields_size fs

  pub items_size : Items → ℕ
  items_size nil = 0
  items_size (cons v vs) = estimated_size v + items_size vs

  pub fields_size : Fields → ℕ
  fields_size end = 0
  fields_size (field k v fs) = len k + 24 + estimated_size v + fields_size fs

abbrev pub unwrap_or : Option ℕ → ℕ → ℕ
unwrap_or none d = d
unwrap_or (some n) d = n

-- What `set` holds under its locks.
pub record Store : Type 0 where
  pub entries : HashMap Text CacheEntry
  pub index : BTreeMap Text
  pub used : ℕ

-- Removal of an entry that is there, with its bytes.
drop_entry : Text → Option CacheEntry → HashMap Text CacheEntry → ℕ → HashMap Text CacheEntry × ℕ
drop_entry key none entries used = (entries, used)
drop_entry key (some e) entries used = (remove key entries, used - e.size_bytes)

pub drop_existing : Text → Option CacheEntry → Store → Store
drop_existing key none s = s
drop_existing key (some e) s = record {
  entries = remove key s.entries;
  index = remove e.last_accessed s.index;
  used = s.used - e.size_bytes;
}

module _ (max_bytes max_entries size_bytes : ℕ) where
  -- The test of the eviction loop.
  is_full : HashMap Text CacheEntry → ℕ → Bool
  is_full entries used = ltb max_bytes (add_u64 used size_bytes) || leb max_entries (length entries)

  -- The loop takes the oldest access from the index, until there is room or the index is empty.
  pub evict : HashMap Text CacheEntry → BTreeMap Text → ℕ → Store
  evict entries [] used = record { entries = entries; index = []; used = used }
  evict entries ((t, key) ∷ index) used = elim (is_full entries used) [
    | true ↦
        let (entries', used') = drop_entry key (lookup key entries) entries used in
        evict entries' index used'
    | false ↦ record { entries = entries; index = (t, key) ∷ index; used = used }
  ]

module _ (json_text : Value → Text) where
  unfoldable pub compute_key : Text → Value → Text
  compute_key tool_name arguments = tool_name ++ codes ":" ++ json_text arguments

  touch : ℕ → Text → Option CacheEntry → ToolCache → ToolCache × Option Value
  touch now key none c = (record c { misses = add_u64 c.misses 1 }, none)
  touch now key (some e) c =
      if ltb now e.expires_at
      then (
        record c {
          entries = insert key (record e { last_accessed = now }) c.entries;
          access_index = insert_sorted now key (remove e.last_accessed c.access_index);
          hits = add_u64 c.hits 1;
        },
        some e.result,
      )
      else (record c { misses = add_u64 c.misses 1 }, none)

  unfoldable pub get : ℕ → Text → Value → ToolCache → ToolCache × Option Value
  unfolding touch compute_key
  get now tool_name arguments c =
      let key = compute_key tool_name arguments in touch now key (lookup key c.entries) c

  -- The insertion at the end of `set`, if there is room.
  store : ℕ → ℕ → Text → Value → ℕ → Store → ToolCache → ToolCache
  store now expires_at key result size_bytes s c =
      let c' = record c { entries = s.entries; access_index = s.index; bytes_used = s.used } in
      if leb (add_u64 s.used size_bytes) c.max_bytes && ltb (length s.entries) c.max_entries
      then record c {
        entries =
            insert key
              (record {
                result = result;
                size_bytes = size_bytes;
                last_accessed = now;
                expires_at = expires_at;
              })
              s.entries;
        access_index = insert_sorted now key s.index;
        bytes_used = add_u64 s.used size_bytes;
      }
      else c'

  -- The state after the old entry of the key is gone and room has been made.
  make_room : Text → ℕ → ToolCache → Store
  make_room key size_bytes c =
      let s =
        drop_existing key (lookup key c.entries)
          (record { entries = c.entries; index = c.access_index; used = c.bytes_used }) in
      evict c.max_bytes c.max_entries size_bytes s.entries s.index s.used

  unfoldable pub set : ℕ → Text → Value → Value → Option ℕ → ToolCache → ToolCache
  unfolding store make_room drop_existing drop_entry evict is_full compute_key
  set now tool_name arguments result ttl c =
      let key = compute_key tool_name arguments in
      let size_bytes = add_u64 (estimated_size result) (len key) in
      if ltb c.max_bytes size_bytes
      then c
      else store now (now + unwrap_or ttl c.default_ttl) key result size_bytes
          (make_room key size_bytes c) c

  unfoldable pub stats : ToolCache → ℕ × ℕ × ℕ
  stats c = (c.hits, c.misses, length c.entries)
