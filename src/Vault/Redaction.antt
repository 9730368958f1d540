-- ===== src/Vault/Redaction.antt =====
-- What the supervisor's view of arguments hides (src/vault_lock.rs).
use intermcp.Prelude.{
  ◌≡◌, refl, arith, Text, true, if◌then◌else◌, Bool-cases, inl, inr, ◌==◌, text_is_eq,
}
use intermcp.Json.{
  Value, null, bool, number, string, array, object, Items, nil, cons, Fields, end, field,
  insert_field,
}
use intermcp.Vault.{is_sensitive, redacted, safe_display_arguments, safe_items, safe_fields}

-- Every field with a sensitive key, at any depth, holds "[REDACTED]".
mutual
  pub HidesSecrets : Value → Type 0
  HidesSecrets (object fs) = FieldsHide fs
  HidesSecrets (array vs) = ItemsHide vs
  HidesSecrets _ = Unit

  ItemsHide : Items → Type 0
  ItemsHide nil = Unit
  ItemsHide (cons v vs) = HidesSecrets v × ItemsHide vs

  FieldsHide : Fields → Type 0
  FieldsHide end = Unit
  FieldsHide (field k v fs) =
      (is_sensitive k ≡ true → v ≡ redacted) × HidesSecrets v × FieldsHide fs

insert_field-FieldsHide :
    (k : Text) (v : Value) (out : Fields)
    → (is_sensitive k ≡ true → v ≡ redacted)
    → HidesSecrets v
    → FieldsHide out
    → FieldsHide (insert_field k v out)
unfolding insert_field FieldsHide
insert_field-FieldsHide k v end s h o = (s, h, tt)
insert_field-FieldsHide k v (field j w fs) s h (sj, hw, o) = elim (Bool-cases (j == k)) [
  | inl same ↦ rw same (s, h, o)
  | inr other ↦ rw other (sj, hw, insert_field-FieldsHide k v fs s h o)
]

shown :
    (k : Text) (v : Value)
    → HidesSecrets v
    → (is_sensitive k ≡ true → (if is_sensitive k then redacted else v) ≡ redacted)
      × HidesSecrets (if is_sensitive k then redacted else v)
unfolding HidesSecrets
shown k v h = elim (Bool-cases (is_sensitive k)) [
  | inl secret ↦ rw secret ((λ _. refl), tt)
  | inr shown_as_is ↦ rw shown_as_is ((λ s. ground arith), h)
]

mutual
  unfolding HidesSecrets safe_display_arguments

  value_hides : (v : Value) → HidesSecrets (safe_display_arguments v)
  value_hides (object fs) = fields_hide fs end tt
  value_hides (array vs) = items_hide vs
  value_hides null = tt
  value_hides (bool b) = tt
  value_hides (number n) = tt
  value_hides (string s) = tt

  items_hide : (vs : Items) → ItemsHide (safe_items vs)
  items_hide nil = tt
  items_hide (cons v vs) = (value_hides v, items_hide vs)

  fields_hide : (fs out : Fields) → FieldsHide out → FieldsHide (safe_fields fs out)
  fields_hide end out o = o
  fields_hide (field k v fs) out o =
      let (s, h) = shown k (safe_display_arguments v) (value_hides v) in
      fields_hide fs (insert_field k _ out) (insert_field-FieldsHide k _ out s h o)

-- What `safe_display_arguments` shows holds "[REDACTED]" in every field with a sensitive key, at
-- any depth of objects and arrays.
pub safe_display_arguments-HidesSecrets : (v : Value) → HidesSecrets (safe_display_arguments v)
safe_display_arguments-HidesSecrets v = value_hides v
