-- ===== src/Dict.antt =====
-- Python's `dict`: an association list in insertion order, over keys that are compared by `==`.
-- Assignment to a key that is there keeps its place; a new key comes last.
use universal_agent_memory.Prelude.{
  suc, ◌≡◌, refl, ap, sym, ◌∙◌, length, ◌⊎◌, inl, inr, true, false, Option, none, some, List, [],
  ◌∷◌, arith, if◌then◌else◌, Bool-cases, Option-cases, Eq, All, In, beq_refl,
}

abbrev pub Dict {ℓ κ} : Type ℓ → Type κ → Type (ℓ ⊔ κ)
Dict K V = List (K × V)

-- `d.values()`
abbrev pub values {ℓ κ} : {K : Type ℓ} {V : Type κ} → Dict K V → List V
values [] = []
values ((k, v) ∷ d) = v ∷ values d

pub length-values {ℓ κ} : {K : Type ℓ} {V : Type κ} (d : Dict K V) → length (values d) ≡ length d
length-values [] = refl
length-values ((k, v) ∷ d) = ap suc (length-values d)

module _ {ℓ κ} {K : Type ℓ} {V : Type κ} ⦃e : Eq K⦄ where
  -- `d.get(k)`
  unfoldable pub get : K → Dict K V → Option V
  get k [] = none
  get k ((j, v) ∷ d) = if e.equal j k then some v else get k d

  -- `d[k] = v`
  unfoldable pub put : K → V → Dict K V → Dict K V
  put k v [] = (k, v) ∷ []
  put k v ((j, w) ∷ d) = if e.equal j k then (j, v) ∷ d else (j, w) ∷ put k v d

  -- `d.pop(k, None)`
  unfoldable pub remove : K → Dict K V → Dict K V
  remove k [] = []
  remove k ((j, v) ∷ d) = let rest = remove k d in if e.equal j k then rest else (j, v) ∷ rest

  -- `d.setdefault(k, v)`
  unfoldable pub set_default : K → V → Dict K V → Dict K V
  set_default k v d = elim (get k d) [ none ↦ put k v d | some w ↦ d ]

  pub get-put :
      (k j : K) (v : V) (d : Dict K V)
      → get j (put k v d) ≡ (if e.equal k j then some v else get j d)
  unfolding get put
  get-put k j v [] = refl
  get-put k j v ((i, w) ∷ d) =
      ground (arith, e.equal_iff k j, e.equal_iff i k, e.equal_iff i j, get-put k j v d)

  pub get-put_self : (k : K) (v : V) (d : Dict K V) → get k (put k v d) ≡ some v
  get-put_self k v d = ground (arith, get-put k k v d, beq_refl k)

  -- A write under a new key keeps what is there.
  pub put-keeps :
      (k j : K) (w : V) (d : Dict K V) {v : V}
      → get k d ≡ none
      → get j d ≡ some v
      → get j (put k w d) ≡ some v
  put-keeps k j w d new old = elim (Bool-cases (e.equal k j)) [
    | inl q ↦ absurd (cc (new, old, (e.equal_iff k j).0 q))
    | inr q ↦ get-put k j w d ∙ rw q old
  ]

  -- `setdefault` keeps what is there.
  pub set_default-keeps :
      (k j : K) (w : V) (d : Dict K V) {v : V}
      → get j d ≡ some v
      → get j (set_default k w d) ≡ some v
  unfolding set_default
  set_default-keeps k j w d {v} old = elim (Option-cases (get k d)) [
    | inl p ↦ rw (p, set_default) (put-keeps k j w d p old)
    | inr (u, p) ↦ rw (p, set_default) old
  ]

  pub get-remove :
      (k j : K) (d : Dict K V) → get j (remove k d) ≡ (if e.equal k j then none else get j d)
  unfolding get remove
  get-remove k j [] = ground arith
  get-remove k j ((i, w) ∷ d) =
      ground (arith, e.equal_iff k j, e.equal_iff i k, e.equal_iff i j, get-remove k j d)

  -- No key stands twice.
  abbrev pub HasDistinctKeys : Dict K V → Type κ
  HasDistinctKeys [] = Unit
  HasDistinctKeys ((k, v) ∷ d) = (get k d ≡ none) × HasDistinctKeys d

  pub put-HasDistinctKeys :
      (k : K) (v : V) (d : Dict K V) → HasDistinctKeys d → HasDistinctKeys (put k v d)
  unfolding put
  put-HasDistinctKeys k v [] h = (unfold get in refl, tt)
  put-HasDistinctKeys k v ((j, w) ∷ d) h = elim (Bool-cases (e.equal j k)) [
    | inl q ↦ rw q h
    | inr q ↦ rw q (absent q, put-HasDistinctKeys k v d h.1)
  ]
    where
      absent : e.equal j k ≡ false → get j (put k v d) ≡ none
      absent q = ground (arith, q, get-put k j v d, h.0, e.equal_iff j k, e.equal_iff k j)

  -- A predicate on the entries.
  module _ {μ} (P : K × V → Type μ) where
    pub All-put :
        (k : K) (v : V) (d : Dict K V) → ((j : K) → j ≡ k → P (j, v)) → All P d → All P (put k v d)
    unfolding put
    All-put k v [] h a = (h k refl, a)
    All-put k v ((j, w) ∷ d) h a = elim (Bool-cases (e.equal j k)) [
      | inl q ↦ rw q (h j ((e.equal_iff j k).0 q), a.1)
      | inr q ↦ rw q (a.0, All-put k v d h a.1)
    ]

    pub All-remove : (k : K) (d : Dict K V) → All P d → All P (remove k d)
    unfolding remove
    All-remove k [] a = a
    All-remove k ((j, w) ∷ d) a = elim (Bool-cases (e.equal j k)) [
      | inl q ↦ rw q (All-remove k d a.1)
      | inr q ↦ rw q (a.0, All-remove k d a.1)
    ]

    pub All-get : (k : K) (d : Dict K V) {v : V} → All P d → get k d ≡ some v → P (k, v)
    unfolding get
    All-get k [] a h = absurd (cc)
    All-get k ((j, w) ∷ d) {v} a h = elim (Bool-cases (e.equal j k)) [
      | inl q ↦
          let r : j ≡ k = (e.equal_iff j k).0 q in
          let s : w ≡ v = ground (arith, q) in rw (← r, ← s) a.0
      | inr q ↦ All-get k d a.1 (ground (arith, q))
    ]

module _ {ℓ} {K : Type ℓ} {V : Type 0} ⦃e : Eq K⦄ where
  pub In-put : (k : K) (v : V) (d : Dict K V) → In v (values (put k v d))
  unfolding put
  In-put k v [] = inl refl
  In-put k v ((j, w) ∷ d) = elim (Bool-cases (e.equal j k)) [
    | inl q ↦ rw q (inl refl)
    | inr q ↦ rw q (inr (In-put k v d))
  ]

  pub In-get : (k : K) (d : Dict K V) {v : V} → get k d ≡ some v → In v (values d)
  unfolding get
  In-get k [] h = absurd (cc)
  In-get k ((j, w) ∷ d) {v} h = elim (Bool-cases (e.equal j k)) [
    | inl q ↦ inl (ground (arith, q))
    | inr q ↦ inr (In-get k d (ground (arith, q)))
  ]

  pub In-of-put :
      (k : K) (v w : V) (d : Dict K V) → In w (values (put k v d)) → (w ≡ v) ⊎ In w (values d)
  unfolding put
  In-of-put k v w [] (inl q) = inl q
  In-of-put k v w [] (inr m) = absurd m
  In-of-put k v w ((j, u) ∷ d) m = elim (Bool-cases (e.equal j k)) [
    | inl q ↦ let n : In w (v ∷ values d) = rw q at m in first n
    | inr q ↦
        let n : In w (u ∷ values (put k v d)) = rw q at m in second n (λ i. In-of-put k v w d i)
  ]
    where
      first : In w (v ∷ values d) → (w ≡ v) ⊎ In w (u ∷ values d)
      first (inl p) = inl p
      first (inr i) = inr (inr i)

      second :
          In w (u ∷ values (put k v d))
          → (In w (values (put k v d)) → (w ≡ v) ⊎ In w (values d))
          → (w ≡ v) ⊎ In w (u ∷ values d)
      second (inl p) f = inr (inl p)
      second (inr i) f = elim (f i) [ inl p ↦ inl p | inr n ↦ inr (inr n) ]

  -- An entry of a dictionary is found under its key.
  pub get-of-In :
      (key : V → K) (d : Dict K V) {v : V}
      → HasDistinctKeys d
      → All (λ e. key e.1 ≡ e.0) d
      → In v (values d)
      → get (key v) d ≡ some v
  unfolding get
  get-of-In key [] h a m = absurd m
  get-of-In key ((j, w) ∷ d) {v} h a (inl p) =
      let q : e.equal j (key v) ≡ true = (e.equal_iff j (key v)).1 (sym a.0 ∙ ap key (sym p)) in
      rw q (ap some (sym p))
  get-of-In key ((j, w) ∷ d) {v} h a (inr m) = elim (Bool-cases (e.equal j (key v))) [
    | inr q ↦ rw q (get-of-In key d h.1 a.1 m)
    | inl q ↦
        let r : j ≡ key v = (e.equal_iff j (key v)).0 q in
        absurd (cc (r, h.0, get-of-In key d h.1 a.1 m))
  ]
