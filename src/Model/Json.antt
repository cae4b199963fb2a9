-- ===== src/Model/Json.antt =====
-- The values of `dict[str, Any]`, which json.loads gives. A float is kept as its text, since no
-- service computes with one. A dict keeps its keys in the order of their insertion.
use factorial.Prelude.{
  Bool, Option, none, some, String, str_eq, if◌then◌else◌, ◌≡◌, refl, sym, arith, eq_iff,
  Bool-cases, inl, inr,
}
use factorial.Prelude.Int.{ℤ}

mutual
  pub data Json : Type 0 where
    null : Json
    bool : Bool → Json
    int : ℤ → Json
    float : String → Json
    str : String → Json
    arr : Items → Json
    obj : Dict → Json

  pub data Items : Type 0 where
    nil : Items
    cons : Json → Items → Items

  pub data Dict : Type 0 where
    end : Dict
    entry : String → Json → Dict → Dict

-- d.get(key)
unfoldable pub lookup : String → Dict → Option Json
lookup key end = none
lookup key (entry k v rest) = if str_eq k key then some v else lookup key rest

-- d[key] = value
unfoldable pub insert : String → Json → Dict → Dict
insert key value end = entry key value end
insert key value (entry k v rest) =
    if str_eq k key then entry k value rest else entry k v (insert key value rest)

-- d.pop(key, None), what is left
unfoldable pub erase : String → Dict → Dict
erase key end = end
erase key (entry k v rest) =
    let rest' = erase key rest in if str_eq k key then rest' else entry k v rest'

abbrev pub or_else : Option Json → Option Json → Option Json
or_else none y = y
or_else (some x) y = some x

abbrev or_value : Option Json → Json → Json
or_value none v = v
or_value (some w) v = w

-- {**a, **b}: the keys of a in their order, with b's values, then the other keys of b
unfoldable pub merge : Dict → Dict → Dict
merge end b = b
merge (entry k v rest) b = entry k (or_value (lookup k b) v) (merge rest (erase k b))

pub lookup-insert :
    (k j : String) (v : Json) (d : Dict)
    → lookup j (insert k v d) ≡ (if str_eq k j then some v else lookup j d)
unfolding lookup insert
lookup-insert k j v end = refl
lookup-insert k j v (entry i w d) =
    ground (arith, eq_iff k j, eq_iff i k, eq_iff i j, lookup-insert k j v d)

pub lookup-erase :
    (k j : String) (d : Dict) → lookup j (erase k d) ≡ (if str_eq k j then none else lookup j d)
unfolding lookup erase
lookup-erase k j end = ground arith
lookup-erase k j (entry i w d) =
    ground (arith, eq_iff k j, eq_iff i k, eq_iff i j, lookup-erase k j d)

or_else-none : (x : Option Json) → or_else x none ≡ x
or_else-none none = refl
or_else-none (some v) = refl

or_else-or_value : (x : Option Json) (v : Json) → some (or_value x v) ≡ or_else x (some v)
or_else-or_value none v = refl
or_else-or_value (some w) v = refl

pub lookup-merge :
    (j : String) (a b : Dict) → lookup j (merge a b) ≡ or_else (lookup j b) (lookup j a)
unfolding lookup merge
lookup-merge j end b = sym (or_else-none (lookup j b))
lookup-merge j (entry k v rest) b = elim (Bool-cases (str_eq k j)) [
  | inl same ↦ rw (same, (eq_iff k j).0 same) (or_else-or_value (lookup j b) v)
  | inr other ↦ rw (other, lookup-merge j rest (erase k b), lookup-erase k j b, other) refl
]
