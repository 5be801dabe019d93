-- ===== src/Orchestration/Flow.antt =====
-- graph.go: the flow as it is submitted. What a node is called with is a JSON object; a node without
-- one has the empty object.
use jacu_harness.Base.{String, List}
use jacu_harness.Base.Int.{ℤ}

-- `any`, as a JSON decoder fills it; `other` stands for numbers, Booleans and null.
mutual
  pub data Value : Type 0 where
    text : String → Value
    other : String → Value
    object : Fields → Value
    array : Items → Value

  pub data Items : Type 0 where
    no_items : Items
    item : Value → Items → Items

  pub data Fields : Type 0 where
    no_fields : Fields
    field : String → Value → Fields → Fields

pub record Node : Type 0 where
  pub id : String
  pub uses : String
  pub lane : String
  pub with_fields : Fields
  pub allowed_paths : List String
  pub max_visits : ℤ

pub record Edge : Type 0 where
  pub from : String
  pub to : String
  pub condition : String

pub record Flow : Type 0 where
  pub nodes : List Node
  pub edges : List Edge
