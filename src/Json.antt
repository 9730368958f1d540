-- ===== src/Json.antt =====
-- `serde_json::Value`. A number stands as its literal, since the program never computes with one;
-- an object is the sequence of its entries in the order of the map.
use intermcp.Prelude.{
  true, false, not, ◌&&◌, Text, Bool, Option, none, some, ◌==◌, text_is_eq, if◌then◌else◌,
}

mutual
  pub data Value : Type 0 where
    null : Value
    bool : Bool → Value
    number : Text → Value
    string : Text → Value
    array : Items → Value
    object : Fields → Value

  pub data Items : Type 0 where
    nil : Items
    cons : Value → Items → Items

  pub data Fields : Type 0 where
    end : Fields
    field : Text → Value → Fields → Fields

-- `Map::get`.
unfoldable pub get_field : Text → Fields → Option Value
get_field k end = none
get_field k (field j v fs) = if j == k then some v else get_field k fs

-- `Map::insert`: a key that is there keeps its place.
unfoldable pub insert_field : Text → Value → Fields → Fields
insert_field k v end = field k v end
insert_field k v (field j w fs) = if j == k then field k v fs else field j w (insert_field k v fs)

-- `Value::get` with a text index.
unfoldable pub get : Text → Value → Option Value
unfolding get_field
get k (object fs) = get_field k fs
get k _ = none

unfoldable pub as_str : Value → Option Text
as_str (string s) = some s
as_str _ = none

abbrev pub empty_object : Value
empty_object = object end

-- `==` on values.
bool_eq : Bool → Bool → Bool
bool_eq true b = b
bool_eq false b = not b

unfoldable mutual
  unfolding bool_eq

  pub value_eq : Value → Value → Bool
  value_eq null null = true
  value_eq (bool a) (bool b) = bool_eq a b
  value_eq (number a) (number b) = a == b
  value_eq (string a) (string b) = a == b
  value_eq (array vs) (array ws) = items_eq vs ws
  value_eq (object fs) (object gs) = fields_eq fs gs
  value_eq _ _ = false

  pub items_eq : Items → Items → Bool
  items_eq nil nil = true
  items_eq (cons v vs) (cons w ws) = value_eq v w && items_eq vs ws
  items_eq _ _ = false

  pub fields_eq : Fields → Fields → Bool
  fields_eq end end = true
  fields_eq (field j v fs) (field k w gs) = j == k && value_eq v w && fields_eq fs gs
  fields_eq _ _ = false
