-- ===== src/Core/Json.antt =====
-- `serde_json::Value` and the methods of it that the source calls. A map keeps its keys in order.
use next_infra.Base.{
  ℕ, Bool, List, [], ◌∷◌, Option, none, some, Text, text_eq, text_lt, Eq, ◌==◌, if◌then◌else◌,
  ℕ_discrete,
}

pub data Number : Type 0 where
  unsigned : ℕ → Number
  negative : ℕ → Number
  float : Text → Number

mutual
  pub data Value : Type 0 where
    null : Value
    boolean : Bool → Value
    number : Number → Value
    string : Text → Value
    array : Values → Value
    object : Members → Value

  pub data Values : Type 0 where
    nil : Values
    cons : Value → Values → Values

  pub data Members : Type 0 where
    end : Members
    member : Text → Value → Members → Members

unfoldable pub Value-discrete : Discrete Value
Value-discrete = hlevel ℕ_discrete

instance abbrev pub value_eq : Eq Value
value_eq = record { decides = Value-discrete }

unfoldable pub get_member : Members → Text → Option Value
get_member end k = none
get_member (member j v m) k = if k == j then some v else get_member m k

-- `Value::get` by a field name.
unfoldable pub get_field : Value → Text → Option Value
unfolding get_member
get_field (object m) k = get_member m k
get_field null k = none
get_field (boolean b) k = none
get_field (number n) k = none
get_field (string s) k = none
get_field (array xs) k = none

unfoldable pub insert_member : Members → Text → Value → Members
insert_member end k v = member k v end
insert_member (member j w m) k v =
    let rest = insert_member m k v in
    if k == j
    then member k v m
    else if text_lt k j
    then member k v (member j w m)
    else member j w rest

-- `json!({ … })`: the fields are inserted in the order in which they are written.
unfoldable pub insert_fields : Members → List (Text × Value) → Members
insert_fields m [] = m
insert_fields m ((k, v) ∷ fields) = insert_fields (insert_member m k v) fields

unfoldable pub json_object : List (Text × Value) → Value
unfolding insert_fields insert_member
json_object fields = object (insert_fields end fields)

unfoldable pub values_of : List Text → Values
values_of [] = nil
values_of (t ∷ ts) = cons (string t) (values_of ts)

-- A list of strings, serialised.
unfoldable pub json_strings : List Text → Value
unfolding values_of
json_strings ts = array (values_of ts)
