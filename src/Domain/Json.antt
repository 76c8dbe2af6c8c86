-- ===== src/Domain/Json.antt =====
-- The values of a `dict[str, Any]` such as `metadata`: what JSON can hold.
use universal_agent_memory.Prelude.{ℕ, Bool, [], ◌∷◌, nat_eq, list_eq}
use universal_agent_memory.Text.{Text}
use universal_agent_memory.Dict.{Dict, put}

mutual
  pub data Json : Type 0 where
    null : Json
    boolean : Bool → Json
    number : ℕ → Json
    str : Text → Json
    arr : Items → Json
    obj : Fields → Json

  pub data Items : Type 0 where
    nil : Items
    cons : Json → Items → Items

  pub data Fields : Type 0 where
    end : Fields
    field : Text → Json → Fields → Fields

abbrev pub Metadata : Type 0
Metadata = Dict Text Json

-- `{**a, **b}`
unfoldable pub merge : Metadata → Metadata → Metadata
merge a [] = a
merge a ((k, v) ∷ b) = merge (put k v a) b
