-- ===== src/Cache/Tests.antt =====
-- Runs and instances for src/cache.rs. The printer of arguments is a constant.
use intermcp.Prelude.{
  add_u64, len, text_eq, encode, as_bytes, ◌≡◌, refl, codes, Text, List, [], ◌∷◌, none, some, arith,
  lookup, insert, text_is_eq,
}
use intermcp.Cache.{len, add_u64, new, with_max_bytes, with_max_entries, get, set, estimated_size}
use intermcp.Json.{Value, string, null, empty_object}
use intermcp.Cache.Index.{insert_sorted}
use intermcp.Cache.Bounds.{Use, gets, sets, use_all, cache-IsWithin}
use intermcp.Cache.Limits.{IsWithin}

abbrev json : Value → Text
json v = codes "{}"

-- A result is found again before it expires.
stored_found :
    (get json 5
      (codes "read")
      empty_object
      (set json 3 (codes "read") empty_object (string (codes "x")) none (new 10))).1
    ≡ some (string (codes "x"))
unfolding get set new estimated_size add_u64 insert lookup insert_sorted len as_bytes encode text_eq
stored_found = refl

abbrev uses : List Use
uses =
    sets 3 (codes "a") empty_object null none
    ∷ sets 4 (codes "b") empty_object null (some 9)
    ∷ gets 5 (codes "a") empty_object
    ∷ []

cache-IsWithin_example : IsWithin (use_all json uses (with_max_entries 1 (with_max_bytes 10 1000)))
cache-IsWithin_example = cache-IsWithin json 10 1000 1 uses (omega arith)
