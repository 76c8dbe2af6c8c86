-- ===== src/Tests/Package.antt =====
-- Examples for context packages.
use universal_agent_memory.Prelude.{ℕ, ◌≡◌, ◌≤◌, refl, none, List, [], ◌∷◌, All, pos}
use universal_agent_memory.Text.{text}
use universal_agent_memory.Dict
use universal_agent_memory.Domain.Kinds.{semantic, core}
use universal_agent_memory.Context.{
  Candidate, ContextRecipe, compile, first_occurrences, build, items_of_layer, layer_limit, fill,
  is_skipped, add_section, trace, estimate_tokens,
}
use universal_agent_memory.Context.Budget.{section_total, IsWithin, compile_budget}
use universal_agent_memory.Context.Selection.{IsDistinct, compile-IsDistinct}
use universal_agent_memory.Tests.Samples.{sample}

abbrev candidate : ℕ → Candidate
candidate id = record {
  item = sample id 1 none;
  source = text "lexical";
  semantic = pos 0;
  lexical = pos 500000;
  entity = pos 0;
  recency = pos 0;
  trust = pos 0;
  final_score = pos 500000;
}

abbrev recipe : ContextRecipe
recipe = record {
  operation = text "answer";
  budget_tokens = 128;
  layer_order = semantic ∷ core ∷ semantic ∷ [];
  per_layer_limit = (semantic, 2) ∷ [];
  always_include = core ∷ [];
}

abbrev recalled : List Candidate
recalled = candidate 1 ∷ candidate 1 ∷ candidate 2 ∷ candidate 3 ∷ []

selects : (compile recalled recipe).trace_ids ≡ 1 ∷ 2 ∷ []
unfolding compile first_occurrences build items_of_layer layer_limit fill is_skipped add_section
    trace estimate_tokens Dict.get
selects = refl

compile_budget_example :
    ((compile recalled recipe).used_tokens ≤ 128)
    × ((compile recalled recipe).used_tokens ≡ section_total (compile recalled recipe).sections)
    × All (IsWithin recipe) (compile recalled recipe).sections
compile_budget_example = compile_budget recalled recipe

compile-IsDistinct_example : IsDistinct (compile recalled recipe).trace_ids
compile-IsDistinct_example = compile-IsDistinct recalled recipe
