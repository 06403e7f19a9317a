-- ===== src/Safety/Values.antt =====
-- src/safety.rs: the arguments of an external tool. A value of JSON, its items and its fields are
-- one mutual block; a number stands as its text.
use dtcoder_test.Prelude.{ℕ, Bool, String, List}

mutual
  pub data Value : Type 0 where
    null : Value
    boolean : Bool → Value
    number : String → Value
    string : List ℕ → Value
    array : Items → Value
    object : Fields → Value

  pub data Items : Type 0 where
    no_items : Items
    item : Value → Items → Items

  pub data Fields : Type 0 where
    no_fields : Fields
    field : List ℕ → Value → Fields → Fields
