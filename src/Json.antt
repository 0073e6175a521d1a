-- ===== src/Json.antt =====
-- JSON values, as Python's `json` reads and writes them (reflowfy/core/serialization.py and the
-- JSON columns of reflowfy/reflow_manager/models.py). Numbers are not negative, and a float is
-- m / 2^e, as every finite one is: no function modelled here computes with a number of a payload,
-- but for the test whether two are equal.
pub mod Dict
use reflowfy.Prelude.{ℕ, String, Bool}

mutual
  pub data Json : Type 0 where
    null : Json
    bool : Bool → Json
    num : ℕ → Json
    float : (m e : ℕ) → Json
    str : String → Json
    arr : Items → Json
    obj : Fields → Json

  pub data Items : Type 0 where
    nil : Items
    cons : Json → Items → Items

  -- The entries of a dict in its order.
  pub data Fields : Type 0 where
    end : Fields
    field : String → Json → Fields → Fields

-- `{}`
abbrev pub empty_object : Json
empty_object = Json.obj Fields.end
