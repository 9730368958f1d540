-- ===== src/Guardrails/Normalization.antt =====
-- src/guardrails.rs: the hash of the arguments that the loop detection compares, up to the case and
-- the white space at the ends of texts. The lower case of Unicode, SHA-256, hexadecimal, canonical
-- JSON and the printer of JSON are parameters.
use intermcp.Prelude.{
  ℕ, Text, Bool, true, false, ◌||◌, ◌&&◌, List, [], ◌∷◌, trim, as_bytes, ltb, eqb, if◌then◌else◌,
}
use intermcp.Error.{Result, ok, err, FastMcpError}
use intermcp.Json.{
  Value, null, bool, number, string, array, object, Items, nil, cons, Fields, end, field,
  insert_field,
}
use intermcp.Receipts.{hash_canonical_json}

-- The order of `str`: that of the scalar values.
text_lt : Text → Text → Bool
text_lt s [] = false
text_lt [] (b ∷ t) = true
text_lt (a ∷ s) (b ∷ t) = ltb a b || (eqb a b && text_lt s t)

-- `entries.sort_by(|a, b| a.0.cmp(b.0))`
insert_entry : Text → Value → Fields → Fields
insert_entry k v end = field k v end
insert_entry k v (field j w fs) =
    let rest = insert_entry k v fs in
    if text_lt j k then field j w rest else field k v (field j w fs)

unfoldable pub sort_fields : Fields → Fields
unfolding insert_entry text_lt
sort_fields end = end
sort_fields (field k v fs) = insert_entry k v (sort_fields fs)

module _ (to_lowercase : Text → Text) where
  -- The loop that fills the new map with the entries whose values are normalized.
  normalized_keys : Fields → Fields → Fields
  normalized_keys end out = out
  normalized_keys (field k v fs) out =
      normalized_keys fs (insert_field (to_lowercase (trim k)) v out)

  unfoldable mutual
    unfolding normalized_keys sort_fields

    pub normalize : Value → Value
    normalize null = null
    normalize (bool b) = bool b
    normalize (number n) = number n
    normalize (string s) = string (to_lowercase (trim s))
    normalize (array vs) = array (normalize_items vs)
    normalize (object fs) = object (normalized_keys (sort_fields (normalize_fields fs)) end)

    pub normalize_items : Items → Items
    normalize_items nil = nil
    normalize_items (cons v vs) = cons (normalize v) (normalize_items vs)

    -- The values; the keys stay, and so does their order.
    pub normalize_fields : Fields → Fields
    normalize_fields end = end
    normalize_fields (field k v fs) = field k (normalize v) (normalize_fields fs)

  module _ (sha256 : List ℕ → List ℕ) (hex : List ℕ → Text)
      (canonicalize_json : Value → Result (List ℕ) FastMcpError) (json_text : Value → Text) where
    or_printed : Result Text FastMcpError → Value → Text
    or_printed (ok h) normalized = h
    or_printed (err e) normalized = hex (sha256 (as_bytes (json_text normalized)))

    unfoldable pub compute_normalized_arguments_hash : Value → Text
    unfolding or_printed
    compute_normalized_arguments_hash value =
        or_printed (hash_canonical_json sha256 hex canonicalize_json (normalize value))
          (normalize value)
