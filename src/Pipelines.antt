-- ===== src/Pipelines.antt =====
-- The parameters and the schedules that a pipeline declares: PipelineParameter, the checks of
-- AbstractPipeline and `_validate_schedules` of reflowfy/core/abstract_pipeline.py, and those of
-- IdBasedPipeline in reflowfy/core/id_based_pipeline.py. A value is a JSON value, None is null, and an
-- error message is what it is about.
pub mod Accepted
pub mod Names
mod Examples
use reflowfy.Prelude.{
  ℕ, ◌+◌, ◌*◌, ◌^◌, String, Bool, true, false, not, ◌&&◌, ◌||◌, Option, none, some, List, [], ◌∷◌,
  ◌++◌, map, ◌⊎◌, inl, inr, if◌then◌else◌, ◌==◌, nat_eq, string_eq, mem,
}
use reflowfy.Prelude.Sql.{any}
use reflowfy.Json.{Json, Items, Fields}
use reflowfy.Json.Dict.{get, set}
use reflowfy.Schedules.{ScheduledRun}

abbrev pub size : Fields → ℕ
size Fields.end = 0
size (Fields.field k v d) = 1 + size d

abbrev bool_number : Bool → ℕ
bool_number true = 1
bool_number false = 0

-- `==` with a number or a truth value, which is a number: the number is n / 2^k.
abbrev equal_number : (n k : ℕ) → Json → Bool
equal_number n k (Json.num m) = n == m * 2 ^ k
equal_number n k (Json.float m e) = n * 2 ^ e == m * 2 ^ k
equal_number n k (Json.bool b) = n == bool_number b * 2 ^ k
equal_number n k _ = false

-- Python's `==` of two values.
mutual
  pub equal : Json → Json → Bool
  equal Json.null w = elim w [ Json.null ↦ true | _ ↦ false ]
  equal (Json.bool b) w = equal_number (bool_number b) 0 w
  equal (Json.num n) w = equal_number n 0 w
  equal (Json.float m e) w = equal_number m e w
  equal (Json.str s) w = elim w [ Json.str t ↦ s == t | _ ↦ false ]
  equal (Json.arr xs) w = elim w [ Json.arr ys ↦ equal_items xs ys | _ ↦ false ]
  equal (Json.obj d) w = elim w [ Json.obj e ↦ equal_fields d e && (size d == size e) | _ ↦ false ]

  equal_items : Items → Items → Bool
  equal_items Items.nil ys = elim ys [ Items.nil ↦ true | _ ↦ false ]
  equal_items (Items.cons x xs) ys = elim ys [
    | Items.cons y rest ↦ equal x y && equal_items xs rest
    | _ ↦ false
  ]

  equal_fields : Fields → Fields → Bool
  equal_fields Fields.end e = true
  equal_fields (Fields.field k v d) e =
      elim (get k e) [ none ↦ false | some w ↦ equal v w ] && equal_fields d e

-- `instance_of` is any other class.
pub data ParamType : Type 0 where
  str int float bool list dict : ParamType
  instance_of : (is_instance : Json → Bool) → ParamType

pub record PipelineParameter : Type 0 where
  pub name : String
  pub required : Bool
  pub param_type : ParamType
  pub default : Json
  pub choices : Option (List Json)

abbrev pub check_type : ParamType → Json → Bool
check_type ParamType.str (Json.str s) = true
check_type ParamType.int (Json.num n) = true
check_type ParamType.float (Json.num n) = true
check_type ParamType.float (Json.float m e) = true
check_type ParamType.bool (Json.bool b) = true
check_type ParamType.list (Json.arr xs) = true
check_type ParamType.dict (Json.obj d) = true
check_type (ParamType.instance_of is_instance) v = is_instance v
check_type _ v = false

pub data Problem : Type 0 where
  missing : (name : String) → Problem
  wrong_type : (name : String) → Problem
  not_a_choice : (name : String) → Problem
  ids_not_a_list : Problem
  ids_empty : Problem

abbrev pub is_none : Json → Bool
is_none Json.null = true
is_none _ = false

-- `not self.choices or value in self.choices`
abbrev pub is_choice : Option (List Json) → Json → Bool
is_choice none v = true
is_choice (some []) v = true
is_choice (some (c ∷ choices)) v = any (λ x. equal x v) (c ∷ choices)

unfoldable pub validate : PipelineParameter → Json → Option Problem
validate p v =
    if is_none v
    then if p.required then some (Problem.missing p.name) else none
    else if check_type p.param_type v
    then if is_choice p.choices v then none else some (Problem.not_a_choice p.name)
    else some (Problem.wrong_type p.name)

-- `runtime_params.get(name)`
abbrev pub value_of : String → Fields → Json
value_of name d = elim (get name d) [ none ↦ Json.null | some v ↦ v ]

abbrev add_error : Option Problem → List Problem → List Problem
add_error none errors = errors
add_error (some e) errors = e ∷ errors

unfoldable pub validate_parameters : List PipelineParameter → Fields → List Problem
validate_parameters [] d = []
validate_parameters (p ∷ ps) d =
    add_error (validate p (value_of p.name d)) (validate_parameters ps d)

abbrev pub apply_default : PipelineParameter → Fields → Fields
apply_default p d = elim (get p.name d) [
  | some v ↦ d
  | none ↦ if is_none p.default then d else set p.name p.default d
]

unfoldable pub apply_defaults : List PipelineParameter → Fields → Fields
apply_defaults [] d = d
apply_defaults (p ∷ ps) d = apply_defaults ps (apply_default p d)

-- The check of IdBasedPipeline.
abbrev pub validate_ids : Json → List Problem
validate_ids Json.null = []
validate_ids (Json.arr Items.nil) = Problem.ids_empty ∷ []
validate_ids (Json.arr (Items.cons x xs)) = []
validate_ids _ = Problem.ids_not_a_list ∷ []

unfoldable pub validate_all : (id_based : Bool) → List PipelineParameter → Fields → List Problem
validate_all id_based ps d =
    validate_parameters ps d ++ (if id_based then validate_ids (value_of "input_ids" d) else [])

-- `input_ids` of IdBasedPipeline.
abbrev pub ids_parameter : PipelineParameter
ids_parameter = record {
  name = "input_ids";
  required = true;
  param_type = ParamType.list;
  default = Json.null;
  choices = none;
}

-- none is the ValueError of a pipeline that declares `input_ids` itself.
abbrev pub get_all_parameters :
    (id_based : Bool) → List PipelineParameter → Option (List PipelineParameter)
get_all_parameters false ps = some ps
get_all_parameters true ps =
    if any (λ p. p.name == "input_ids") ps then none else some (ids_parameter ∷ ps)

-- `reserved` and `invalid` are exceptions; the jobs are defined with what is `resolved`.
pub data Resolution : Type 0 where
  reserved : Resolution
  invalid : List Problem → Resolution
  resolved : Fields → Resolution

abbrev pub raise_if : List Problem → Fields → Resolution
raise_if [] d = Resolution.resolved d
raise_if (e ∷ errors) d = Resolution.invalid (e ∷ errors)

unfoldable pub resolve : (id_based : Bool) → List PipelineParameter → Fields → Resolution
resolve id_based ps given = elim (get_all_parameters id_based ps) [
  | none ↦ Resolution.reserved
  | some all ↦
      let params = apply_defaults all given in raise_if (validate_all id_based all params) params
]

-- The first schedule that is refused.
pub data Refused : Type 0 where
  duplicate_name : (name : String) → Refused
  invalid_cron : (name : String) → Refused

abbrev pub is_valid_in : Option (String → Bool) → String → Bool
is_valid_in none cron = true
is_valid_in (some valid) cron = valid cron

-- `is_valid` is croniter's, or none where it is not installed.
unfoldable pub validate_schedules :
    (is_valid : Option (String → Bool)) → (seen : List String) → List ScheduledRun → Option Refused
validate_schedules is_valid seen [] = none
validate_schedules is_valid seen (r ∷ runs) =
    let rest = validate_schedules is_valid (r.name ∷ seen) runs in
    if mem r.name seen
    then some (Refused.duplicate_name r.name)
    else if is_valid_in is_valid r.cron
    then rest
    else some (Refused.invalid_cron r.name)
