-- ===== src/Pipelines/Accepted.antt =====
-- Which parameters a pipeline is resolved with: `apply_defaults`, `validate_parameters` and `resolve`
-- of reflowfy/core/abstract_pipeline.py, with the `input_ids` of reflowfy/core/id_based_pipeline.py.
use reflowfy.Prelude.{
  ℕ, String, Bool, true, false, not, ◌&&◌, Option, none, some, List, [], ◌∷◌, ◌++◌, if◌then◌else◌,
  ◌==◌, string_eq, ◌≡◌, ◌⊎◌, inl, inr, refl, sym, ap, ◌∙◌, Bool-cases, Option-cases, All, eq_of_==,
}
use mathlib.Core.Option.{some-ne-none}
use mathlib.Core.List.{cons-ne-nil}
use mathlib.Core.Bool.{true≢false}
use reflowfy.Prelude.Sql.{any}
use reflowfy.Json.{Json, Items, Fields}
use reflowfy.Json.Dict.{get, get-set, or_else}
use reflowfy.Pipelines.{
  ParamType, PipelineParameter, Problem, Resolution, is_none, is_choice, check_type, validate,
  value_of, validate_parameters, apply_default, apply_defaults, validate_ids, validate_all,
  ids_parameter, raise_if, resolve,
}

-- The values of a type: a truth value is no number, a float is no int, and an int is a float.
abbrev pub HasType : ParamType → Json → Type 0
HasType ParamType.str v = (s : String) × (v ≡ Json.str s)
HasType ParamType.int v = (n : ℕ) × (v ≡ Json.num n)
HasType ParamType.float v =
    ((n : ℕ) × (v ≡ Json.num n)) ⊎ ((m : ℕ) × (e : ℕ) × (v ≡ Json.float m e))
HasType ParamType.bool v = (b : Bool) × (v ≡ Json.bool b)
HasType ParamType.list v = (xs : Items) × (v ≡ Json.arr xs)
HasType ParamType.dict v = (d : Fields) × (v ≡ Json.obj d)
HasType (ParamType.instance_of is_instance) v = is_instance v ≡ true

check_type-HasType : (ty : ParamType) (v : Json) → check_type ty v ≡ true → HasType ty v
check_type-HasType ParamType.str (Json.str s) h = (s, refl)
check_type-HasType ParamType.int (Json.num n) h = (n, refl)
check_type-HasType ParamType.float (Json.num n) h = inl (n, refl)
check_type-HasType ParamType.float (Json.float m e) h = inr (m, e, refl)
check_type-HasType ParamType.bool (Json.bool b) h = (b, refl)
check_type-HasType ParamType.list (Json.arr xs) h = (xs, refl)
check_type-HasType ParamType.dict (Json.obj d) h = (d, refl)
check_type-HasType (ParamType.instance_of is_instance) v h = h
check_type-HasType _ _ h = absurd (true≢false (sym h))

HasType-check_type : (ty : ParamType) (v : Json) → HasType ty v → check_type ty v ≡ true
HasType-check_type ParamType.str v h = rw (h.1) refl
HasType-check_type ParamType.int v h = rw (h.1) refl
HasType-check_type ParamType.float v (inl h) = rw (h.1) refl
HasType-check_type ParamType.float v (inr (m, e, h)) = rw h refl
HasType-check_type ParamType.bool v h = rw (h.1) refl
HasType-check_type ParamType.list v h = rw (h.1) refl
HasType-check_type ParamType.dict v h = rw (h.1) refl
HasType-check_type (ParamType.instance_of is_instance) v h = h

-- No value for a parameter that is not required, or one of its type and its choices.
abbrev pub IsAccepted : PipelineParameter → Json → Type 0
IsAccepted p v =
    ((is_none v ≡ true) × (p.required ≡ false))
    ⊎ ((is_none v ≡ false) × HasType p.param_type v × (is_choice p.choices v ≡ true))

abbrev pub AllAccepted : List PipelineParameter → Fields → Type 0
AllAccepted ps d = All (λ p. IsAccepted p (value_of p.name d)) ps

validate-IsAccepted : (p : PipelineParameter) (v : Json) → validate p v ≡ none → IsAccepted p v
unfolding validate
validate-IsAccepted p v h = elim (Bool-cases (is_none v)) [
  | inl n ↦ elim (Bool-cases p.required) [
    | inl r ↦ absurd (some-ne-none (Problem.missing p.name) (simp (n, r, validate) at h))
    | inr r ↦ inl (n, r)
  ]
  | inr n ↦ elim (Bool-cases (check_type p.param_type v)) [
    | inr t ↦ absurd (some-ne-none (Problem.wrong_type p.name) (simp (n, t, validate) at h))
    | inl t ↦ elim (Bool-cases (is_choice p.choices v)) [
      | inr c ↦ absurd (some-ne-none (Problem.not_a_choice p.name) (simp (n, t, c, validate) at h))
      | inl c ↦ inr (n, check_type-HasType p.param_type v t, c)
    ]
  ]
]

IsAccepted-validate : (p : PipelineParameter) (v : Json) → IsAccepted p v → validate p v ≡ none
unfolding validate
IsAccepted-validate p v (inl (n, r)) = simp (n, r, validate) refl
IsAccepted-validate p v (inr (n, t, c)) =
    simp (n, HasType-check_type p.param_type v t, c, validate) refl

validate_parameters-AllAccepted :
    (ps : List PipelineParameter) (d : Fields) → validate_parameters ps d ≡ [] → AllAccepted ps d
unfolding validate_parameters
validate_parameters-AllAccepted [] d h = tt
validate_parameters-AllAccepted (p ∷ ps) d h =
    elim (Option-cases (validate p (value_of p.name d))) [
      | inl e ↦ (
        validate-IsAccepted p (value_of p.name d) e,
        validate_parameters-AllAccepted ps d (rw e at h),
      )
      | inr e ↦ absurd (cons-ne-nil (e.0) (validate_parameters ps d) (rw (e.1) at h))
    ]

AllAccepted-validate_parameters :
    (ps : List PipelineParameter) (d : Fields) → AllAccepted ps d → validate_parameters ps d ≡ []
unfolding validate_parameters
AllAccepted-validate_parameters [] d h = refl
AllAccepted-validate_parameters (p ∷ ps) d h =
    rw (IsAccepted-validate p (value_of p.name d) h.0) (AllAccepted-validate_parameters ps d h.1)

-- The first declared default of a name.
abbrev pub default_of : String → List PipelineParameter → Option Json
default_of i [] = none
default_of i (p ∷ ps) =
    if p.name == i && not (is_none p.default) then some p.default else default_of i ps

or_else-none : (o : Option Json) → or_else o none ≡ o
or_else-none none = refl
or_else-none (some v) = refl

get-apply_default :
    (i : String) (p : PipelineParameter) (d : Fields)
    → get i (apply_default p d)
      ≡ or_else (get i d) (if p.name == i && not (is_none p.default) then some p.default else none)
get-apply_default i p d = elim (Option-cases (get p.name d)) [
  | inr e ↦
      simp (e.1, apply_default)
        (elim (Bool-cases (p.name == i)) [
          | inl n ↦
              let here : get i d ≡ some e.0 = ap (λ k. get k d) (sym (eq_of_== p.name i n)) ∙ e.1 in
              rw here refl
          | inr n ↦ rw n (sym (or_else-none (get i d)))
        ])
  | inl e ↦ elim (Bool-cases (is_none p.default)) [
    | inl z ↦
        simp (e, z, apply_default)
          (elim (Bool-cases (p.name == i)) [
            | inl n ↦ rw n (sym (or_else-none (get i d)))
            | inr n ↦ rw n (sym (or_else-none (get i d)))
          ])
    | inr z ↦
        simp (e, z, apply_default)
          (get-set i p.name p.default d ∙ elim (Bool-cases (p.name == i)) [
            | inl n ↦
                let gone : get i d ≡ none = ap (λ k. get k d) (sym (eq_of_== p.name i n)) ∙ e in
                rw (n, gone) refl
            | inr n ↦ rw n (sym (or_else-none (get i d)))
          ])
  ]
]

or_else-first :
    (b : Bool) (o rest : Option Json) (v : Json)
    → or_else (or_else o (if b then some v else none)) rest ≡ or_else o (if b then some v else rest)
or_else-first b (some w) rest v = refl
or_else-first true none rest v = refl
or_else-first false none rest v = refl

get-apply_defaults :
    (i : String) (ps : List PipelineParameter) (d : Fields)
    → get i (apply_defaults ps d) ≡ or_else (get i d) (default_of i ps)
unfolding apply_defaults
get-apply_defaults i [] d = elim (Option-cases (get i d)) [
  | inl e ↦ rw e refl
  | inr e ↦ rw (e.1) refl
]
get-apply_defaults i (p ∷ ps) d =
    get-apply_defaults i ps (apply_default p d)
    ∙ ap (λ o. or_else o (default_of i ps)) (get-apply_default i p d)
    ∙ or_else-first (p.name == i && not (is_none p.default)) (get i d) (default_of i ps) p.default

-- `input_ids` of an id-based pipeline is a list with an id.
abbrev pub IdsFit : (id_based : Bool) → Json → Type 0
IdsFit false v = Unit
IdsFit true v = (x : Json) × (xs : Items) × (v ≡ Json.arr (Items.cons x xs))

validate_ids-IdsFit : (v : Json) → is_none v ≡ false → validate_ids v ≡ [] → IdsFit true v
validate_ids-IdsFit Json.null n h = absurd (true≢false n)
validate_ids-IdsFit (Json.arr (Items.cons x xs)) n h = (x, xs, refl)
validate_ids-IdsFit (Json.arr Items.nil) n h = absurd (cons-ne-nil _ _ h)
validate_ids-IdsFit (Json.bool b) n h = absurd (cons-ne-nil _ _ h)
validate_ids-IdsFit (Json.num m) n h = absurd (cons-ne-nil _ _ h)
validate_ids-IdsFit (Json.float m e) n h = absurd (cons-ne-nil _ _ h)
validate_ids-IdsFit (Json.str s) n h = absurd (cons-ne-nil _ _ h)
validate_ids-IdsFit (Json.obj d) n h = absurd (cons-ne-nil _ _ h)

IdsFit-validate_ids :
    (id_based : Bool) (v : Json)
    → IdsFit id_based v
    → (if id_based then validate_ids v else []) ≡ []
IdsFit-validate_ids false v h = refl
IdsFit-validate_ids true v h = rw (h.2) refl

both_empty {ℓ} : {A : Type ℓ} (xs ys : List A) → xs ++ ys ≡ [] → (xs ≡ []) × (ys ≡ [])
both_empty [] ys h = (refl, h)
both_empty (x ∷ xs) ys h = absurd (cons-ne-nil x (xs ++ ys) h)

-- The parameters are all accepted, and the ids fit.
abbrev pub IsComplete : (id_based : Bool) → List PipelineParameter → Fields → Type 0
IsComplete id_based all d = AllAccepted all d × IdsFit id_based (value_of "input_ids" d)

IsComplete-validate_all :
    (id_based : Bool) (all : List PipelineParameter) (d : Fields)
    → IsComplete id_based all d
    → validate_all id_based all d ≡ []
unfolding validate_all
IsComplete-validate_all id_based all d h =
    rw (AllAccepted-validate_parameters all d h.0, IdsFit-validate_ids id_based _ h.1) refl

-- The user's parameters, behind the ids of an id-based pipeline.
abbrev pub declared : (id_based : Bool) → List PipelineParameter → List PipelineParameter
declared false ps = ps
declared true ps = ids_parameter ∷ ps

abbrev pub Resolves : (id_based : Bool) → List PipelineParameter → Fields → Resolution → Type 0
Resolves id_based ps given Resolution.reserved =
    (id_based ≡ true) × (any (λ p. p.name == "input_ids") ps ≡ true)
Resolves id_based ps given (Resolution.invalid errors) =
    IsComplete id_based (declared id_based ps) (apply_defaults (declared id_based ps) given) → ⊥
Resolves id_based ps given (Resolution.resolved params) =
    ((i : String) → get i params ≡ or_else (get i given) (default_of i (declared id_based ps)))
    × IsComplete id_based (declared id_based ps) params

validate_all-IsComplete :
    (id_based : Bool) (ps : List PipelineParameter) (d : Fields)
    → validate_all id_based (declared id_based ps) d ≡ []
    → IsComplete id_based (declared id_based ps) d
unfolding validate_all
validate_all-IsComplete false ps d h =
    (validate_parameters-AllAccepted ps d ((both_empty (validate_parameters ps d) [] h).0), tt)
validate_all-IsComplete true ps d h =
    let (fine, ids) = both_empty (validate_parameters (ids_parameter ∷ ps) d) _ h in
    let accepted = validate_parameters-AllAccepted (ids_parameter ∷ ps) d fine in
    let there : is_none (value_of "input_ids" d) ≡ false = elim (accepted.0) [
      | inl missing ↦ absurd (true≢false (missing.1))
      | inr value ↦ value.0
    ] in
    (accepted, validate_ids-IdsFit (value_of "input_ids" d) there ids)

raise_if-Resolves :
    (id_based : Bool) (ps : List PipelineParameter) (given : Fields) (errors : List Problem)
    → validate_all id_based (declared id_based ps) (apply_defaults (declared id_based ps) given)
      ≡ errors
    → Resolves id_based ps given (raise_if errors (apply_defaults (declared id_based ps) given))
raise_if-Resolves id_based ps given [] e = (
  (λ i. get-apply_defaults i (declared id_based ps) given),
  validate_all-IsComplete id_based ps (apply_defaults (declared id_based ps) given) e,
)
raise_if-Resolves id_based ps given (x ∷ errors) e = λ complete. cons-ne-nil x errors (
    sym e
    ∙ IsComplete-validate_all id_based (declared id_based ps)
        (apply_defaults (declared id_based ps) given) complete)

-- The parameters that a pipeline is resolved with are the given ones, and for a name that is not given
-- the first default that is declared for it; each declared parameter has a value of its type and its
-- choices, or none if it is not required; and an id-based pipeline has a list with an id. Parameters
-- are refused only if what they are with the defaults is not so, and a pipeline only if it is id-based
-- and declares `input_ids` itself.
pub resolve-Resolves :
    (id_based : Bool) (ps : List PipelineParameter) (given : Fields)
    → Resolves id_based ps given (resolve id_based ps given)
unfolding resolve
resolve-Resolves false ps given = raise_if-Resolves false ps given _ refl
resolve-Resolves true ps given = elim (Bool-cases (any (λ p. p.name == "input_ids") ps)) [
  | inl r ↦ simp (r, resolve) (refl, refl)
  | inr r ↦ simp (r, resolve) (raise_if-Resolves true ps given _ refl)
]
