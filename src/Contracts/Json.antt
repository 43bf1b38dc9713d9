-- ===== src/Contracts/Json.antt =====
-- `JsonValue` of packages/contracts/src/model.ts. The numbers are the non-negative integers: those
-- are all that the modelled code puts into a value.
use dsh_session_maintenance.Prelude.{ℕ, String, Bool}

mutual
  pub data Json : Type 0 where
    null : Json
    bool : Bool → Json
    num : ℕ → Json
    str : String → Json
    arr : Items → Json
    obj : Fields → Json

  pub data Items : Type 0 where
    nil : Items
    cons : Json → Items → Items

  -- The own enumerable keys with their values, in the order of insertion.
  pub data Fields : Type 0 where
    end : Fields
    field : String → Json → Fields → Fields
