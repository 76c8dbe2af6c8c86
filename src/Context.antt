-- ===== src/Context.antt =====
-- Budgeted context packages: `ContextCompiler` of services/context.py, the recipe and the
-- candidate of contracts/dto.py, and the package of domain/models.py.
pub mod Budget
pub mod Selection
use universal_agent_memory.Prelude.{
  ℕ, ◌+◌, ◌/◌, max, Bool, true, false, not, ◌||◌, Option, none, some, List, [], ◌∷◌, ◌++◌, map, ltb,
  leb, if◌then◌else◌, ◌==◌, nat_eq, length, filter, any, sum_by, Score,
}
use universal_agent_memory.Text.{Text}
use universal_agent_memory.Dict
use universal_agent_memory.Dict.{Dict}
use universal_agent_memory.Domain.Errors.{Result, ok, err, value_error}
use universal_agent_memory.Domain.Kinds.{MemoryLayer, layer_eq}
use universal_agent_memory.Domain.Memory.{MemoryItem}

pub record Candidate : Type 0 where
  pub item : MemoryItem
  pub source : Text
  pub semantic : Score
  pub lexical : Score
  pub entity : Score
  pub recency : Score
  pub trust : Score
  pub final_score : Score

pub record ContextRecipe : Type 0 where
  pub operation : Text
  pub budget_tokens : ℕ
  pub layer_order : List MemoryLayer
  pub per_layer_limit : Dict MemoryLayer ℕ
  pub always_include : List MemoryLayer

-- `ContextRecipe.__post_init__`
unfoldable pub post_init : ContextRecipe → Result ContextRecipe
post_init self =
    if ltb self.budget_tokens 128
    then err (value_error "context budget must be at least 128 tokens")
    else ok self

-- The section's name is the value of its layer.
pub record ContextSection : Type 0 where
  pub layer : MemoryLayer
  pub items : List MemoryItem
  pub estimated_tokens : ℕ

pub record ContextPackage : Type 0 where
  pub operation : Text
  pub sections : List ContextSection
  pub budget_tokens : ℕ
  pub used_tokens : ℕ
  pub trace_ids : List ℕ

-- `estimate_tokens`
unfoldable pub estimate_tokens : Text → ℕ
estimate_tokens text = max 1 ((length text + 3) / 4)

abbrev pub cost : MemoryItem → ℕ
cost item = estimate_tokens item.text

-- `tuple(dict.fromkeys(layers))`: the first occurrence of each layer, in order. `seen` are those
-- before.
unfoldable pub first_occurrences : List MemoryLayer → List MemoryLayer → List MemoryLayer
first_occurrences seen [] = []
first_occurrences seen (l ∷ layers) =
    let rest = first_occurrences (l ∷ seen) layers in
    if any (λ k. k == l) seen then rest else l ∷ rest

-- `by_layer.get(layer, ())`
unfoldable pub items_of_layer : MemoryLayer → List Candidate → List MemoryItem
items_of_layer layer candidates = filter (λ i. i.layer == layer) (map (λ c. c.item) candidates)

abbrev pub limit_or_100 : Option ℕ → ℕ
limit_or_100 none = 100
limit_or_100 (some n) = n

-- `recipe.per_layer_limit.get(layer, 100)`
unfoldable pub layer_limit : ContextRecipe → MemoryLayer → ℕ
layer_limit recipe layer = limit_or_100 (Dict.get layer recipe.per_layer_limit)

-- The two `continue` tests of the inner loop, for an item when `taken` items of the layer are
-- accepted, `used` tokens are spent and `selected` are the identities of the package so far.
unfoldable pub is_skipped : ℕ → ℕ → MemoryItem → ℕ → ℕ → List ℕ → Bool
is_skipped budget limit item taken used selected =
    any (λ i. i == item.id) selected || leb limit taken || ltb budget (used + cost item)

-- What one run of the inner loop accepts, and the tokens and identities that it leaves.
pub record Filled : Type 0 where
  pub accepted : List MemoryItem
  pub used : ℕ
  pub selected : List ℕ

-- The inner loop.
unfoldable pub fill : ℕ → ℕ → List MemoryItem → ℕ → ℕ → List ℕ → Filled
fill budget limit [] taken used selected = record {
  accepted = [];
  used = used;
  selected = selected;
}
fill budget limit (item ∷ items) taken used selected =
    elim (is_skipped budget limit item taken used selected) [
      | true ↦ fill budget limit items taken used selected
      | false ↦
          let rest = fill budget limit items (taken + 1) (used + cost item) (item.id ∷ selected) in
          record { accepted = item ∷ rest.accepted; used = rest.used; selected = rest.selected }
    ]

-- `if accepted: sections.append(ContextSection(…))`
unfoldable pub add_section :
    MemoryLayer → List MemoryItem → List ContextSection → List ContextSection
add_section layer [] sections = sections
add_section layer (i ∷ items) sections =
    record { layer = layer; items = i ∷ items; estimated_tokens = sum_by cost (i ∷ items) }
    ∷ sections

-- The outer loop: the sections of the layers, and the tokens that are spent in the end.
unfoldable pub build :
    ContextRecipe → List Candidate → List MemoryLayer → ℕ → List ℕ → List ContextSection × ℕ
build recipe candidates [] used selected = ([], used)
build recipe candidates (layer ∷ order) used selected =
    let filled =
      fill recipe.budget_tokens (layer_limit recipe layer) (items_of_layer layer candidates) 0 used
        selected in
    let (sections, total) = build recipe candidates order filled.used filled.selected in
    (add_section layer filled.accepted sections, total)

unfoldable pub trace : List ContextSection → List ℕ
trace [] = []
trace (s ∷ sections) = map (λ i. i.id) s.items ++ trace sections

-- `compile`
unfoldable pub compile : List Candidate → ContextRecipe → ContextPackage
compile candidates recipe =
    let order = first_occurrences [] (recipe.always_include ++ recipe.layer_order) in
    let (sections, used) = build recipe candidates order 0 [] in
    record {
      operation = recipe.operation;
      sections = sections;
      budget_tokens = recipe.budget_tokens;
      used_tokens = used;
      trace_ids = trace sections;
    }
