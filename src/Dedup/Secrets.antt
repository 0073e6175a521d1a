-- ===== src/Dedup/Secrets.antt =====
-- The identity of a destination: `_strip_secrets` of reflowfy/execution/content_dedup.py.
use reflowfy.Prelude.{
  String, Bool, true, false, ◌≡◌, refl, ap, Bool-cases, inl, inr, Option, none, some,
}
use reflowfy.Json.{Json, Items, Fields}
use reflowfy.Dedup.{
  strip_secrets, strip_items, strip_fields, config_of, identity, compute_record_hash,
}

-- Two values that differ in the values of secret keys only, at any depth.
mutual
  pub data Rotated (is_secret : String → Bool) : Json → Json → Type 0 where
    same : {v : Json} → Rotated is_secret v v
    arr :
        {vs ws : Items}
        → RotatedItems is_secret vs ws
        → Rotated is_secret (Json.arr vs) (Json.arr ws)
    obj :
        {fs gs : Fields}
        → RotatedFields is_secret fs gs
        → Rotated is_secret (Json.obj fs) (Json.obj gs)

  pub data RotatedItems (is_secret : String → Bool) : Items → Items → Type 0 where
    nil : RotatedItems is_secret Items.nil Items.nil
    cons :
        {v w : Json} {vs ws : Items}
        → Rotated is_secret v w
        → RotatedItems is_secret vs ws
        → RotatedItems is_secret (Items.cons v vs) (Items.cons w ws)

  pub data RotatedFields (is_secret : String → Bool) : Fields → Fields → Type 0 where
    end : RotatedFields is_secret Fields.end Fields.end
    secret :
        {k : String} {v w : Json} {fs gs : Fields}
        → is_secret k ≡ true
        → RotatedFields is_secret fs gs
        → RotatedFields is_secret (Fields.field k v fs) (Fields.field k w gs)
    plain :
        {k : String} {v w : Json} {fs gs : Fields}
        → Rotated is_secret v w
        → RotatedFields is_secret fs gs
        → RotatedFields is_secret (Fields.field k v fs) (Fields.field k w gs)

-- No key of a value is secret, at any depth.
unfoldable mutual
  pub IsClean : (String → Bool) → Json → Type 0
  IsClean is_secret (Json.arr vs) = AreClean is_secret vs
  IsClean is_secret (Json.obj fs) = HasCleanFields is_secret fs
  IsClean is_secret v = Unit

  pub AreClean : (String → Bool) → Items → Type 0
  AreClean is_secret Items.nil = Unit
  AreClean is_secret (Items.cons v vs) = IsClean is_secret v × AreClean is_secret vs

  pub HasCleanFields : (String → Bool) → Fields → Type 0
  HasCleanFields is_secret Fields.end = Unit
  HasCleanFields is_secret (Fields.field k v fs) =
      (is_secret k ≡ false) × IsClean is_secret v × HasCleanFields is_secret fs

module _ (is_secret : String → Bool) where
  mutual
    unfolding strip_secrets

    strip_value :
        (v w : Json) → Rotated is_secret v w → strip_secrets is_secret v ≡ strip_secrets is_secret w
    strip_value v w same = refl
    strip_value _ _ (arr {vs} {ws} r) = ap Json.arr (strip_values vs ws r)
    strip_value _ _ (obj {fs} {gs} r) = ap Json.obj (strip_entries fs gs r)

    strip_values :
        (vs ws : Items)
        → RotatedItems is_secret vs ws
        → strip_items is_secret vs ≡ strip_items is_secret ws
    strip_values vs ws nil = refl
    strip_values _ _ (cons {v} {w} {vs} {ws} r rs) =
        rw (strip_value v w r, strip_values vs ws rs) refl

    strip_entries :
        (fs gs : Fields)
        → RotatedFields is_secret fs gs
        → strip_fields is_secret fs ≡ strip_fields is_secret gs
    strip_entries fs gs end = refl
    strip_entries _ _ (secret {k} {v} {w} {fs} {gs} h rs) = rw h (strip_entries fs gs rs)
    strip_entries _ _ (plain {k} {v} {w} {fs} {gs} r rs) =
        rw (strip_value v w r, strip_entries fs gs rs) refl

  mutual
    unfolding strip_secrets IsClean

    value-IsClean : (v : Json) → IsClean is_secret (strip_secrets is_secret v)
    value-IsClean Json.null = tt
    value-IsClean (Json.bool b) = tt
    value-IsClean (Json.num n) = tt
    value-IsClean (Json.float m e) = tt
    value-IsClean (Json.str s) = tt
    value-IsClean (Json.arr vs) = values-AreClean vs
    value-IsClean (Json.obj fs) = entries-HasCleanFields fs

    values-AreClean : (vs : Items) → AreClean is_secret (strip_items is_secret vs)
    values-AreClean Items.nil = tt
    values-AreClean (Items.cons v vs) = (value-IsClean v, values-AreClean vs)

    entries-HasCleanFields : (fs : Fields) → HasCleanFields is_secret (strip_fields is_secret fs)
    entries-HasCleanFields Fields.end = tt
    entries-HasCleanFields (Fields.field k v fs) = elim (Bool-cases (is_secret k)) [
      | inl h ↦ rw h (entries-HasCleanFields fs)
      | inr h ↦ rw h (h, value-IsClean v, entries-HasCleanFields fs)
    ]

pub data RotatedOption (is_secret : String → Bool) : Option Json → Option Json → Type 0 where
  absent : RotatedOption is_secret none none
  given : {v w : Json} → Rotated is_secret v w → RotatedOption is_secret (some v) (some w)

-- A value without its secrets has no secret key left, at any depth.
pub strip_secrets-IsClean :
    (is_secret : String → Bool) (v : Json) → IsClean is_secret (strip_secrets is_secret v)
strip_secrets-IsClean = value-IsClean

config-Rotated :
    (is_secret : String → Bool) (v w : Json)
    → Rotated is_secret v w
    → config_of is_secret v ≡ config_of is_secret w
config-Rotated is_secret v w same = refl
config-Rotated is_secret _ _ (arr r) = refl
config-Rotated is_secret _ _ (obj {fs} {gs} r) =
    strip_value is_secret (Json.obj fs) (Json.obj gs) (Rotated.obj r)

identity-Rotated :
    (is_secret : String → Bool) (type_name : String) (e e' : Option Json) (c c' : Json)
    → RotatedOption is_secret e e'
    → Rotated is_secret c c'
    → identity is_secret type_name e c ≡ identity is_secret type_name e' c'
unfolding identity
identity-Rotated is_secret type_name _ _ c c' absent r = rw (config-Rotated is_secret c c' r) refl
identity-Rotated is_secret type_name _ _ c c' (given {v} {w} x) r =
    rw (strip_value is_secret v w x) refl

-- A credential that is changed at any depth of the config of a destination, or of its
-- dedup_identity, leaves the hash of every record as it was.
pub rotation_keeps_hash :
    (is_secret : String → Bool) (digest : Json → String) (pipeline type_name : String)
    (record_id : Json) (job_params : Fields) (e e' : Option Json) (c c' : Json)
    → RotatedOption is_secret e e'
    → Rotated is_secret c c'
    → compute_record_hash digest pipeline record_id (identity is_secret type_name e c) job_params
      ≡ compute_record_hash digest pipeline record_id
          (identity is_secret type_name e' c')
          job_params
rotation_keeps_hash is_secret digest pipeline type_name record_id job_params e e' c c' re rc =
    ap (λ d. compute_record_hash digest pipeline record_id d job_params)
      (identity-Rotated is_secret type_name e e' c c' re rc)
