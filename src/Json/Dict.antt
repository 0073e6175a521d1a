-- ===== src/Json/Dict.antt =====
-- Python's dict of a JSON object: reading, writing and merging by key.
use reflowfy.Prelude.{
  String, Option, none, some, List, [], ◌∷◌, ◌≡◌, refl, sym, ap, ◌∙◌, inl, inr, arith,
  if◌then◌else◌, ◌==◌, string_eq, eq_of_==, Bool-cases,
}
use reflowfy.Json.{Json, Items, Fields}

-- `d.get(key)`, with none for a missing key.
unfoldable pub get : String → Fields → Option Json
get key Fields.end = none
get key (Fields.field k v d) = let rest = get key d in if k == key then some v else rest

-- `d[key] = value`: a new key goes to the end.
unfoldable pub set : String → Json → Fields → Fields
set key value Fields.end = Fields.field key value Fields.end
set key value (Fields.field k v d) =
    let rest = set key value d in if k == key then Fields.field k value d else Fields.field k v rest

-- `{**d, **e}`, and `d.update(e)`.
unfoldable pub merge : Fields → Fields → Fields
merge d Fields.end = d
merge d (Fields.field k v e) = merge (set k v d) e

-- `{k: v for k, v in d.items() if k != key}`
unfoldable pub drop_key : String → Fields → Fields
drop_key key Fields.end = Fields.end
drop_key key (Fields.field k v d) =
    let rest = drop_key key d in if k == key then rest else Fields.field k v rest

-- A dict has each key once.
abbrev pub IsDict : Fields → Type 0
IsDict Fields.end = Unit
IsDict (Fields.field k v d) = (get k d ≡ none) × IsDict d

-- `a if a is there else b`
abbrev pub or_else : Option Json → Option Json → Option Json
or_else none b = b
or_else (some a) b = some a

-- `[...]` of a list of values.
abbrev pub items : List Json → Items
items [] = Items.nil
items (x ∷ xs) = Items.cons x (items xs)

abbrev pub values : Items → List Json
values Items.nil = []
values (Items.cons x xs) = x ∷ values xs

pub values-items : (xs : List Json) → values (items xs) ≡ xs
values-items [] = refl
values-items (x ∷ xs) = ap (◌∷◌ x) (values-items xs)

pub get-set :
    (i k : String) (v : Json) (d : Fields)
    → get i (set k v d) ≡ (if k == i then some v else get i d)
unfolding get set
get-set i k v Fields.end = refl
get-set i k v (Fields.field n w d) =
    ground
      (arith, get-set i k v d, string_eq.decides n k, string_eq.decides n i, string_eq.decides k i)

pub get-drop_key :
    (i k : String) (d : Fields) → get i (drop_key k d) ≡ (if k == i then none else get i d)
unfolding get drop_key
get-drop_key i k Fields.end = ground arith
get-drop_key i k (Fields.field n w d) =
    ground (
      arith,
      get-drop_key i k d,
      string_eq.decides n k,
      string_eq.decides n i,
      string_eq.decides k i,
    )

-- A merged dict reads the second where it has the key, and otherwise the first.
pub get-merge :
    (i : String) (d e : Fields) → IsDict e → get i (merge d e) ≡ or_else (get i e) (get i d)
unfolding get merge
get-merge i d Fields.end h = refl
get-merge i d (Fields.field k v e) h = elim (Bool-cases (k == i)) [
  | inl t ↦
      let gone : get i e ≡ none = rw (sym (eq_of_== k i t)) (h.0) in
      get-merge i (set k v d) e h.1 ∙ rw (gone, t, get-set i k v d) (rw t refl)
  | inr t ↦ get-merge i (set k v d) e h.1 ∙ rw (t, get-set i k v d) (rw t refl)
]

pub set-IsDict : (k : String) (v : Json) (d : Fields) → IsDict d → IsDict (set k v d)
unfolding get set
set-IsDict k v Fields.end h = (refl, tt)
set-IsDict k v (Fields.field n w d) h = elim (Bool-cases (n == k)) [
  | inl e ↦ rw e h
  | inr e ↦ rw e (
    get-set n k v d ∙ ground (arith, h.0, string_eq.decides n k, string_eq.decides k n),
    set-IsDict k v d h.1,
  )
]

pub drop_key-IsDict : (k : String) (d : Fields) → IsDict d → IsDict (drop_key k d)
unfolding get drop_key
drop_key-IsDict k Fields.end h = tt
drop_key-IsDict k (Fields.field n w d) h = elim (Bool-cases (n == k)) [
  | inl e ↦ rw e (drop_key-IsDict k d h.1)
  | inr e ↦ rw e (get-drop_key n k d ∙ ground (arith, h.0), drop_key-IsDict k d h.1)
]
