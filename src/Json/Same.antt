-- ===== src/Json/Same.antt =====
-- When Python calls two such values equal, without an order to compare them by.
use wire_agent.Base.{true, false, ◌≡◌, sym, subst, inl, inr, Bool-cases, decided_iff}
use wire_agent.Json.{
  Value, null, text, boolean, integer, float, non_finite, list, dict, other, Items, nil, cons,
  Fields, end, field, Key, comes_first, insert_field, canonical, canonical_items, canonical_fields,
  value_eq, Value-discrete,
}

-- A Boolean is the integer 0 or 1, lists are equal item by item, and two entries of a dictionary may
-- change places: a key occurs once in a dictionary.
mutual
  pub data SameValue : Value → Value → Type 0 where
    same : (v : Value) → SameValue v v
    back : (v w : Value) → SameValue v w → SameValue w v
    chain : (u v w : Value) → SameValue u v → SameValue v w → SameValue u w
    one : SameValue (boolean true) (integer false 1)
    nought : SameValue (boolean false) (integer false 0)
    lists : (xs ys : Items) → SameItems xs ys → SameValue (list xs) (list ys)
    dicts : (fs gs : Fields) → SameFields fs gs → SameValue (dict fs) (dict gs)

  pub data SameItems : Items → Items → Type 0 where
    no_items : SameItems nil nil
    items :
        (x y : Value) (xs ys : Items)
        → SameValue x y
        → SameItems xs ys
        → SameItems (cons x xs) (cons y ys)

  pub data SameFields : Fields → Fields → Type 0 where
    same_fields : (fs : Fields) → SameFields fs fs
    chain_fields : (fs gs hs : Fields) → SameFields fs gs → SameFields gs hs → SameFields fs hs
    entry :
        (k : Key) (v w : Value) (fs gs : Fields)
        → SameValue v w
        → SameFields fs gs
        → SameFields (field k v fs) (field k w gs)
    swap :
        (k l : Key) (v w : Value) (fs : Fields)
        → SameFields (field k v (field l w fs)) (field l w (field k v fs))

insert_field-SameFields :
    (k : Key) (v : Value) (fs : Fields) → SameFields (field k v fs) (insert_field k v fs)
unfolding insert_field
insert_field-SameFields k v end = same_fields (field k v end)
insert_field-SameFields k v (field l w fs) = elim (Bool-cases (comes_first k l)) [
  | inl e ↦ rw e (same_fields (field k v (field l w fs)))
  | inr e ↦ rw e (
      chain_fields (field k v (field l w fs)) (field l w (field k v fs))
        (field l w (insert_field k v fs)) (swap k l v w fs)
        (entry l w w (field k v fs) (insert_field k v fs) (same w)
          (insert_field-SameFields k v fs)))
]

mutual
  unfolding canonical

  canonical-SameValue : (v : Value) → SameValue v (canonical v)
  canonical-SameValue null = same null
  canonical-SameValue (text s) = same (text s)
  canonical-SameValue (boolean true) = one
  canonical-SameValue (boolean false) = nought
  canonical-SameValue (integer s n) = same (integer s n)
  canonical-SameValue (float n) = same (float n)
  canonical-SameValue non_finite = same non_finite
  canonical-SameValue (list xs) = lists xs (canonical_items xs) (canonical-SameItems xs)
  canonical-SameValue (dict fs) = dicts fs (canonical_fields fs) (canonical-SameFields fs)
  canonical-SameValue other = same other

  canonical-SameItems : (xs : Items) → SameItems xs (canonical_items xs)
  canonical-SameItems nil = no_items
  canonical-SameItems (cons x xs) =
      items x (canonical x) xs (canonical_items xs) (canonical-SameValue x) (canonical-SameItems xs)

  canonical-SameFields : (fs : Fields) → SameFields fs (canonical_fields fs)
  canonical-SameFields end = same_fields end
  canonical-SameFields (field k v fs) =
      chain_fields (field k v fs) (field k (canonical v) (canonical_fields fs))
        (insert_field k (canonical v) (canonical_fields fs))
        (entry k v (canonical v) fs (canonical_fields fs) (canonical-SameValue v)
          (canonical-SameFields fs))
        (insert_field-SameFields k (canonical v) (canonical_fields fs))

pub value_eq-SameValue : (v w : Value) → value_eq v w ≡ true → SameValue v w
unfolding value_eq
value_eq-SameValue v w h =
    let e : canonical v ≡ canonical w =
      (decided_iff (Value-discrete (canonical v) (canonical w))).0 h in
    chain v (canonical v) w (canonical-SameValue v)
      (subst (λ z. SameValue z w) (sym e) (back w (canonical w) (canonical-SameValue w)))
