-- ===== src/Context/Budget.antt =====
-- Proofs on the token budget of `compile` in services/context.py.
use universal_agent_memory.Prelude.{
  ℕ, ◌+◌, ◌≤◌, ◌≡◌, refl, inl, inr, true, false, List, [], ◌∷◌, arith, Bool-cases, length, sum_by,
  All,
}
use universal_agent_memory.Domain.Memory.{MemoryItem}
use universal_agent_memory.Domain.Kinds.{MemoryLayer}
use universal_agent_memory.Context.{
  Candidate, ContextRecipe, ContextSection, cost, is_skipped, fill, add_section, build, compile,
  layer_limit, items_of_layer,
}

module _ (budget limit : ℕ) where
  pub fill-skip :
      (item : MemoryItem) (items : List MemoryItem) (taken used : ℕ) (selected : List ℕ)
      → is_skipped budget limit item taken used selected ≡ true
      → fill budget limit (item ∷ items) taken used selected
        ≡ fill budget limit items taken used selected
  unfolding fill
  fill-skip item items taken used selected e = rw (e, fill)

  pub fill-take :
      (item : MemoryItem) (items : List MemoryItem) (taken used : ℕ) (selected : List ℕ)
      → is_skipped budget limit item taken used selected ≡ false
      → let rest = fill budget limit items (taken + 1) (used + cost item) (item.id ∷ selected) in
        fill budget limit (item ∷ items) taken used selected
        ≡ record { accepted = item ∷ rest.accepted; used = rest.used; selected = rest.selected }
  unfolding fill
  fill-take item items taken used selected e = rw (e, fill)

  -- Spent tokens are those of the accepted items, stay in the budget, and the items in the limit.
  fill_budget :
      (items : List MemoryItem) (taken used : ℕ) (selected : List ℕ)
      → used ≤ budget
      → taken ≤ limit
      → let r = fill budget limit items taken used selected in
        (r.used ≡ used + sum_by cost r.accepted)
        × (r.used ≤ budget)
        × (taken + length r.accepted ≤ limit)
  fill_budget [] taken used selected h k = unfold fill in (omega arith, h, omega arith)
  fill_budget (item ∷ items) taken used selected h k =
      elim (Bool-cases (is_skipped budget limit item taken used selected)) [
        | inl e ↦
            rw (fill-skip item items taken used selected e)
              (fill_budget items taken used selected h k)
        | inr e ↦
            let fits : used + cost item ≤ budget = unfold is_skipped in ground (arith, e) in
            let room : taken + 1 ≤ limit = unfold is_skipped in ground (arith, e) in
            let (a, b, c) =
              fill_budget items (taken + 1) (used + cost item) (item.id ∷ selected) fits room in
            rw (fill-take item items taken used selected e) (omega (arith, a), b, omega (arith, c))
      ]

abbrev pub section_total : List ContextSection → ℕ
section_total sections = sum_by (λ s. s.estimated_tokens) sections

-- A section's estimate is that of its items, and it is not empty.
abbrev pub IsCounted : ContextSection → Type 0
IsCounted s = (s.estimated_tokens ≡ sum_by cost s.items) × (1 ≤ length s.items)

abbrev pub IsWithin : ContextRecipe → ContextSection → Type 0
IsWithin recipe s = IsCounted s × (length s.items ≤ layer_limit recipe s.layer)

add_section-IsWithin :
    (recipe : ContextRecipe) (layer : MemoryLayer) (items : List MemoryItem)
    (sections : List ContextSection)
    → length items ≤ layer_limit recipe layer
    → All (IsWithin recipe) sections
    → (section_total (add_section layer items sections)
        ≡ sum_by cost items + section_total sections)
      × All (IsWithin recipe) (add_section layer items sections)
unfolding add_section
add_section-IsWithin recipe layer [] sections h a = (omega arith, a)
add_section-IsWithin recipe layer (i ∷ items) sections h a = (refl, (((refl, omega arith), h), a))

build_budget :
    (recipe : ContextRecipe) (candidates : List Candidate) (order : List MemoryLayer) (used : ℕ)
    (selected : List ℕ)
    → used ≤ recipe.budget_tokens
    → let r = build recipe candidates order used selected in
      (r.1 ≡ used + section_total r.0) × (r.1 ≤ recipe.budget_tokens) × All (IsWithin recipe) r.0
unfolding build
build_budget recipe candidates [] used selected h = (omega arith, h, tt)
build_budget recipe candidates (layer ∷ order) used selected h =
    let limit = layer_limit recipe layer in
    let items = items_of_layer layer candidates in
    let filled = fill recipe.budget_tokens limit items 0 used selected in
    let (spent, fits, room) =
      fill_budget recipe.budget_tokens limit items 0 used selected h (omega arith) in
    let (total, bounded, within) =
      build_budget recipe candidates order filled.used filled.selected fits in
    let sections = (build recipe candidates order filled.used filled.selected).0 in
    let (sum, kept) =
      add_section-IsWithin recipe layer filled.accepted sections (omega (arith, room)) within in
    (omega (arith, total, spent, sum), bounded, kept)

-- A compiled package never spends more tokens than the recipe's budget, its spent tokens are the
-- sum of its sections' estimates, each section is not empty and is estimated by its items, and
-- none has more items than its layer's limit.
pub compile_budget :
    (candidates : List Candidate) (recipe : ContextRecipe)
    → let compiled = compile candidates recipe in
      (compiled.used_tokens ≤ recipe.budget_tokens)
      × (compiled.used_tokens ≡ section_total compiled.sections)
      × All (IsWithin recipe) compiled.sections
unfolding compile
compile_budget candidates recipe =
    let (total, bounded, within) = build_budget recipe candidates _ 0 [] (omega arith) in
    (bounded, omega (arith, total), within)
