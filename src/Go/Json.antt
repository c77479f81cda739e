-- ===== src/Go/Json.antt =====
-- Values of `encoding/json` in variables of type `any`. A number is kept as it is printed.
use hive_worker.Base.{Text, Bool}

mutual
  pub data Json : Type 0 where
    null : Json
    boolean : Bool → Json
    number : Text → Json
    string : Text → Json
    array : Items → Json
    object : Fields → Json

  pub data Items : Type 0 where
    end_items : Items
    item : Json → Items → Items

  pub data Fields : Type 0 where
    end_fields : Fields
    field : Text → Json → Fields → Fields
