-- ===== src/Pipelines/Examples.antt =====
-- An id-based pipeline with a limit and an environment, and the theorems of Pipelines at it.
use reflowfy.Prelude.{
  String, true, false, none, some, [], ◌∷◌, map, ◌≡◌, ◌↔◌, refl, IsDistinct, All, ◌==◌, string_eq,
}
use reflowfy.Json.{Json, Fields}
use reflowfy.Json.Dict.{items, get, set}
use reflowfy.Prelude.Sql.{any}
use reflowfy.Params.{dict}
use reflowfy.Schedules.{ScheduledRun}
use reflowfy.Pipelines.{
  ParamType, PipelineParameter, Problem, Resolution, resolve, apply_defaults, validate_all,
  validate_parameters, validate, validate_schedules,
}
use reflowfy.Pipelines.Accepted.{Resolves, resolve-Resolves}
use reflowfy.Pipelines.Names.{name_of, IsValid, validate_schedules_correct}

abbrev environment : PipelineParameter
environment = record {
  name = "env";
  required = true;
  param_type = ParamType.str;
  default = Json.null;
  choices = some (Json.str "dev" ∷ Json.str "prod" ∷ []);
}

abbrev limit : PipelineParameter
limit = record {
  name = "limit";
  required = false;
  param_type = ParamType.int;
  default = Json.num 10;
  choices = none;
}

abbrev given : Fields
given = dict (("env", Json.str "dev") ∷ ("input_ids", Json.arr (items (Json.num 7 ∷ []))) ∷ [])

-- The default is added behind what is given.
resolves :
    resolve true (environment ∷ limit ∷ []) given
    ≡ Resolution.resolved (
        dict (
          ("env", Json.str "dev")
          ∷ ("input_ids", Json.arr (items (Json.num 7 ∷ [])))
          ∷ ("limit", Json.num 10)
          ∷ []))
unfolding resolve apply_defaults validate_all validate_parameters validate get set any
    reflowfy.Pipelines.equal
resolves = refl

resolve-Resolves_example :
    Resolves true (environment ∷ limit ∷ []) given (resolve true (environment ∷ limit ∷ []) given)
resolve-Resolves_example = resolve-Resolves true (environment ∷ limit ∷ []) given

abbrev daily : String → ScheduledRun
daily name = record {
  pipeline_name = "p";
  name = name;
  cron = "0 9 * * *";
  params = Json.obj Fields.end;
}

validate_schedules_correct_example :
    (validate_schedules (some (λ c. c == "0 9 * * *")) [] (daily "a" ∷ daily "b" ∷ []) ≡ none) ↔ (
      IsDistinct (map name_of (daily "a" ∷ daily "b" ∷ []))
      × All (IsValid (some (λ c. c == "0 9 * * *"))) (daily "a" ∷ daily "b" ∷ []))
validate_schedules_correct_example =
    validate_schedules_correct (some (λ c. c == "0 9 * * *")) (daily "a" ∷ daily "b" ∷ [])
