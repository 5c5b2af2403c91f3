-- ===== src/Json.antt =====
-- The Python values that a ledger's `details` may hold, and `_validate_json_value` of
-- src/webwire/safety/effect_ledger.py, which accepts what JSON can carry unchanged.
pub mod Same
use Prim.Native.String.{compare}
use package.text.Mathlib.Text.{is_le}
use wire_agent.Base.{
  if◌then◌else◌, ◌≡◌, ◌↔◌, String-discrete, decided, decided_iff, ℕ, String, Bool, true, false,
  ◌&&◌,
}
use native.Mathlib.Decide.{ℕ_discrete}

mutual
  pub data Value : Type 0 where
    null : Value
    text : String → Value
    boolean : Bool → Value
    -- an integer by its sign (true below zero) and its magnitude
    integer : Bool → ℕ → Value
    -- a finite float by its bit pattern; `non_finite` is NaN or an infinity
    float : ℕ → Value
    non_finite : Value
    list : Items → Value
    dict : Fields → Value
    -- a value of any other Python type
    other : Value

  pub data Items : Type 0 where
    nil : Items
    cons : Value → Items → Items

  pub data Fields : Type 0 where
    end : Fields
    field : Key → Value → Fields → Fields

  -- a dictionary's key may be no string
  pub data Key : Type 0 where
    name : String → Key
    other_key : Key

is_name : Key → Bool
is_name (name s) = true
is_name other_key = false

-- `true` where `_validate_json_value` returns, `false` where it raises `ValueError`.
unfoldable mutual
  unfolding is_name

  pub validate_json_value : Value → Bool
  validate_json_value null = true
  validate_json_value (text s) = true
  validate_json_value (boolean b) = true
  validate_json_value (integer s n) = true
  validate_json_value (float n) = true
  validate_json_value non_finite = false
  validate_json_value (list xs) = validate_items xs
  validate_json_value (dict fs) = validate_fields fs
  validate_json_value other = false

  pub validate_items : Items → Bool
  validate_items nil = true
  validate_items (cons x xs) = validate_json_value x && validate_items xs

  pub validate_fields : Fields → Bool
  validate_fields end = true
  validate_fields (field k v fs) = is_name k && validate_json_value v && validate_fields fs

unfoldable pub Value-discrete : Discrete Value
unfolding String-discrete ℕ_discrete
Value-discrete = hlevel (ℕ_discrete, String-discrete)

-- A string key before another; a key that is no string comes first.
unfoldable pub comes_first : Key → Key → Bool
comes_first other_key k = true
comes_first (name s) other_key = false
comes_first (name s) (name t) = is_le (compare s t)

-- An entry goes to its place among entries that are in the order of their keys.
unfoldable pub insert_field : Key → Value → Fields → Fields
unfolding comes_first
insert_field k v end = field k v end
insert_field k v (field l w fs) =
    let rest = insert_field k v fs in
    if comes_first k l then field k v (field l w fs) else field l w rest

-- The value with the entries of each dictionary in the order of their keys, and a Boolean as the
-- integer that it is equal to. Two values are equal in Python when these are the same.
unfoldable mutual
  unfolding insert_field

  pub canonical : Value → Value
  canonical null = null
  canonical (text s) = text s
  canonical (boolean true) = integer false 1
  canonical (boolean false) = integer false 0
  canonical (integer s n) = integer s n
  canonical (float n) = float n
  canonical non_finite = non_finite
  canonical (list xs) = list (canonical_items xs)
  canonical (dict fs) = dict (canonical_fields fs)
  canonical other = other

  pub canonical_items : Items → Items
  canonical_items nil = nil
  canonical_items (cons x xs) = cons (canonical x) (canonical_items xs)

  pub canonical_fields : Fields → Fields
  canonical_fields end = end
  canonical_fields (field k v fs) = insert_field k (canonical v) (canonical_fields fs)

-- Python's `==` on two such values, where a dictionary has no order. A key occurs once in it.
unfoldable pub value_eq : Value → Value → Bool
unfolding Value-discrete canonical
value_eq v w = decided (Value-discrete (canonical v) (canonical w))
