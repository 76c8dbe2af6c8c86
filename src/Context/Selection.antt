-- ===== src/Context/Selection.antt =====
-- Proofs on which items `compile` of services/context.py selects.
use universal_agent_memory.Prelude.{
  ℕ, ◌+◌, ◌≡◌, refl, inl, inr, Bool, true, false, List, [], ◌∷◌, ◌++◌, arith, eqb, nat_eq, ◌==◌,
  Bool-cases, any, All, All-append, In, In-of-filter, All-of_In, filter, All-filter_self, All-In,
  map,
}
use universal_agent_memory.Domain.Memory.{MemoryItem}
use universal_agent_memory.Domain.Kinds.{MemoryLayer, layer_eq, layer_beq_iff}
use universal_agent_memory.Context.{
  Candidate, ContextRecipe, ContextSection, cost, is_skipped, fill, add_section, build, trace,
  compile, layer_limit, items_of_layer,
}
use universal_agent_memory.Context.Budget.{fill-skip, fill-take}

abbrev pub is_member : List ℕ → ℕ → Bool
is_member ids i = any (λ j. j == i) ids

abbrev pub IsDistinct : List ℕ → Type 0
IsDistinct [] = Unit
IsDistinct (i ∷ ids) = All (λ j. eqb i j ≡ false) ids × IsDistinct ids

ids : List MemoryItem → List ℕ
ids items = map (λ i. i.id) items

-- No identity of `xs` is among `seen`.
abbrev Avoids : List ℕ → List ℕ → Type 0
Avoids seen xs = All (λ i. is_member seen i ≡ false) xs

Avoids-cons :
    (i : ℕ) (seen xs : List ℕ)
    → Avoids (i ∷ seen) xs
    → Avoids seen xs × All (λ j. eqb i j ≡ false) xs
Avoids-cons i seen [] h = (tt, tt)
Avoids-cons i seen (x ∷ xs) h =
    let (a, b) = Avoids-cons i seen xs h.1 in ((ground (arith, h.0), a), (ground (arith, h.0), b))

module _ (budget limit : ℕ) where
  -- What the inner loop accepts is new, stands once, and is selected afterwards.
  fill-IsDistinct :
      (items : List MemoryItem) (taken used : ℕ) (selected : List ℕ)
      → let r = fill budget limit items taken used selected in
        Avoids selected (map (λ i. i.id) r.accepted)
        × IsDistinct (map (λ i. i.id) r.accepted)
        × ((xs : List ℕ)
            → Avoids r.selected xs
            → Avoids selected xs
              × All (λ i. All (λ j. eqb i j ≡ false) xs) (map (λ i. i.id) r.accepted))
  fill-IsDistinct [] taken used selected = unfold fill in (tt, tt, λ xs h. (h, tt))
  fill-IsDistinct (item ∷ items) taken used selected =
      elim (Bool-cases (is_skipped budget limit item taken used selected)) [
        | inl e ↦
            rw (fill-skip budget limit item items taken used selected e)
              (fill-IsDistinct items taken used selected)
        | inr e ↦
            let new : is_member selected item.id ≡ false = unfold is_skipped in ground (arith, e) in
            let (a, b, c) =
              fill-IsDistinct items (taken + 1) (used + cost item) (item.id ∷ selected) in
            let (old, apart) = Avoids-cons item.id selected _ a in
            rw (fill-take budget limit item items taken used selected e) (
              (new, old),
              (apart, b),
              λ xs h.
                  let (p, q) = c xs h in
                  let (r, s) = Avoids-cons item.id selected xs p in (r, (s, q)),
            )
      ]

IsDistinct-append :
    (xs ys : List ℕ)
    → IsDistinct xs
    → IsDistinct ys
    → All (λ i. All (λ j. eqb i j ≡ false) ys) xs
    → IsDistinct (xs ++ ys)
IsDistinct-append [] ys h k a = k
IsDistinct-append (x ∷ xs) ys h k a =
    (All-append (λ j. eqb x j ≡ false) xs ys h.0 a.0, IsDistinct-append xs ys h.1 k a.1)

trace-add_section :
    (layer : MemoryLayer) (items : List MemoryItem) (sections : List ContextSection)
    → trace (add_section layer items sections) ≡ map (λ i. i.id) items ++ trace sections
unfolding add_section trace
trace-add_section layer [] sections = refl
trace-add_section layer (i ∷ items) sections = refl

build-IsDistinct :
    (recipe : ContextRecipe) (candidates : List Candidate) (order : List MemoryLayer) (used : ℕ)
    (selected : List ℕ)
    → let sections = (build recipe candidates order used selected).0 in
      Avoids selected (trace sections) × IsDistinct (trace sections)
unfolding build trace
build-IsDistinct recipe candidates [] used selected = (tt, tt)
build-IsDistinct recipe candidates (layer ∷ order) used selected =
    let limit = layer_limit recipe layer in
    let items = items_of_layer layer candidates in
    let filled = fill recipe.budget_tokens limit items 0 used selected in
    let (new, distinct, apart) = fill-IsDistinct recipe.budget_tokens limit items 0 used selected in
    let (avoids, later) = build-IsDistinct recipe candidates order filled.used filled.selected in
    let (older, separate) = apart _ avoids in
    rw trace-add_section (
      All-append (λ i. is_member selected i ≡ false) (map (λ i. i.id) filled.accepted) _ new older,
      IsDistinct-append (map (λ i. i.id) filled.accepted) _ distinct later separate,
    )

-- No memory item stands twice in a package: the identities of its trace differ from one another,
-- also where a layer is asked for twice or candidates repeat.
pub compile-IsDistinct :
    (candidates : List Candidate) (recipe : ContextRecipe)
    → IsDistinct (compile candidates recipe).trace_ids
unfolding compile
compile-IsDistinct candidates recipe = (build-IsDistinct recipe candidates _ 0 []).1

fill-subset :
    (P : MemoryItem → Type 0) (budget limit : ℕ) (items : List MemoryItem) (taken used : ℕ)
    (selected : List ℕ)
    → All P items
    → All P (fill budget limit items taken used selected).accepted
fill-subset P budget limit [] taken used selected h = unfold fill in tt
fill-subset P budget limit (item ∷ items) taken used selected h =
    elim (Bool-cases (is_skipped budget limit item taken used selected)) [
      | inl e ↦
          rw (fill-skip budget limit item items taken used selected e)
            (fill-subset P budget limit items taken used selected h.1)
      | inr e ↦ rw (fill-take budget limit item items taken used selected e) (
        h.0,
        fill-subset P budget limit items (taken + 1) (used + cost item) (item.id ∷ selected) h.1,
      )
    ]

-- Every item of the section is a candidate of the section's layer.
abbrev pub IsFrom : List Candidate → ContextSection → Type 0
IsFrom candidates s = All (λ i. (i.layer ≡ s.layer) × In i (map (λ c. c.item) candidates)) s.items

items_of_layer-IsFrom :
    (layer : MemoryLayer) (candidates : List Candidate)
    → All
        (λ i. (i.layer ≡ layer) × In i (map (λ c. c.item) candidates))
        (items_of_layer layer candidates)
unfolding items_of_layer
items_of_layer-IsFrom layer candidates =
    let rows = map (λ (c : Candidate). c.item) candidates in
    let p = λ (i : MemoryItem). i.layer == layer in
    All-of_In (filter p rows) (λ i m. (
      (layer_beq_iff i.layer layer).0
          (All-In (λ j. p j ≡ true) (filter p rows) i (All-filter_self p rows) m),
      In-of-filter p rows i m,
    ))

add_section-IsFrom :
    (candidates : List Candidate) (layer : MemoryLayer) (items : List MemoryItem)
    (sections : List ContextSection)
    → All (λ i. (i.layer ≡ layer) × In i (map (λ c. c.item) candidates)) items
    → All (IsFrom candidates) sections
    → All (IsFrom candidates) (add_section layer items sections)
unfolding add_section
add_section-IsFrom candidates layer [] sections h k = k
add_section-IsFrom candidates layer (i ∷ items) sections h k = (h, k)

build-IsFrom :
    (recipe : ContextRecipe) (candidates : List Candidate) (order : List MemoryLayer) (used : ℕ)
    (selected : List ℕ)
    → All (IsFrom candidates) (build recipe candidates order used selected).0
unfolding build
build-IsFrom recipe candidates [] used selected = tt
build-IsFrom recipe candidates (layer ∷ order) used selected =
    let items = items_of_layer layer candidates in
    let filled = fill recipe.budget_tokens (layer_limit recipe layer) items 0 used selected in
    add_section-IsFrom candidates layer filled.accepted _
      (fill-subset _ recipe.budget_tokens (layer_limit recipe layer) items 0 used selected
        (items_of_layer-IsFrom layer candidates))
      (build-IsFrom recipe candidates order filled.used filled.selected)

-- Every item of a package is one of the recalled candidates and stands in the section of its layer.
pub compile-IsFrom :
    (candidates : List Candidate) (recipe : ContextRecipe)
    → All (IsFrom candidates) (compile candidates recipe).sections
unfolding compile
compile-IsFrom candidates recipe = build-IsFrom recipe candidates _ 0 []
