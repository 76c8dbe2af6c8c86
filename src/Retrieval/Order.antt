-- ===== src/Retrieval/Order.antt =====
-- Proofs on the order of ranked candidates and on lists of candidates of different items.
use universal_agent_memory.Prelude.{
  ℕ, zero, suc, ◌≡◌, refl, inl, inr, Bool, true, false, List, [], ◌∷◌, arith, eqb, nat_eq, take,
  filter, All, All-take, All-filter, Bool-cases, score_leb, score_leb-total, score_leb_trans,
  score_min-le, pos,
}
use universal_agent_memory.Sorting.{sort, insert, All-sort, All-insert}
use universal_agent_memory.Context.{Candidate}
use universal_agent_memory.Retrieval.Fusion.{Floats, Weights, weighted_score, fuse}
use universal_agent_memory.Retrieval.{not_behind}

pub fuse-item :
    (floats : Floats) (weights : Weights) (now : ℕ) (first : Candidate) (others : List Candidate)
    → (fuse floats weights now first others).item ≡ first.item
unfolding fuse
fuse-item floats weights now first others = refl

pub fuse-score :
    (floats : Floats) (weights : Weights) (now : ℕ) (first : Candidate) (others : List Candidate)
    → score_leb (fuse floats weights now first others).final_score (pos 1000000) ≡ true
unfolding fuse
fuse-score floats weights now first others =
    score_min-le (pos 1000000) (weighted_score floats weights now first others)

pub not_behind-total : (a b : Candidate) → not_behind a b ≡ false → not_behind b a ≡ true
unfolding not_behind
not_behind-total a b h = ground (arith, score_leb-total a.final_score b.final_score)

pub not_behind_trans :
    (a b c : Candidate) → not_behind a b ≡ true → not_behind b c ≡ true → not_behind a c ≡ true
unfolding not_behind
not_behind_trans a b c p q = ground (
  arith,
  score_leb_trans a.final_score c.final_score b.final_score,
  score_leb_trans c.final_score a.final_score b.final_score,
  score_leb_trans b.final_score c.final_score a.final_score,
  score_leb_trans b.final_score a.final_score c.final_score,
  score_leb_trans c.final_score b.final_score a.final_score,
  score_leb-total a.final_score b.final_score,
  score_leb-total b.final_score c.final_score,
  score_leb-total a.final_score c.final_score,
)

-- The candidates are of different items.
abbrev pub AreDistinct : List Candidate → Type 0
AreDistinct [] = Unit
AreDistinct (c ∷ cs) = All (λ d. eqb d.item.id c.item.id ≡ false) cs × AreDistinct cs

pub filter-AreDistinct :
    (p : Candidate → Bool) (cs : List Candidate) → AreDistinct cs → AreDistinct (filter p cs)
filter-AreDistinct p [] h = tt
filter-AreDistinct p (c ∷ cs) h = elim (Bool-cases (p c)) [
  | inl e ↦ rw e (All-filter _ p cs h.0, filter-AreDistinct p cs h.1)
  | inr e ↦ rw e (filter-AreDistinct p cs h.1)
]

pub take-AreDistinct : (n : ℕ) (cs : List Candidate) → AreDistinct cs → AreDistinct (take n cs)
take-AreDistinct zero cs h = tt
take-AreDistinct (suc n) [] h = tt
take-AreDistinct (suc n) (c ∷ cs) h = (All-take _ n cs h.0, take-AreDistinct n cs h.1)

insert-AreDistinct :
    (le : Candidate → Candidate → Bool) (c : Candidate) (cs : List Candidate)
    → All (λ d. eqb d.item.id c.item.id ≡ false) cs
    → AreDistinct cs
    → AreDistinct (insert le c cs)
unfolding insert
insert-AreDistinct le c [] h k = (tt, tt)
insert-AreDistinct le c (d ∷ ds) h k = elim (Bool-cases (le c d)) [
  | inl e ↦ rw e (h, k)
  | inr e ↦ rw e (
    All-insert le (λ x. eqb x.item.id d.item.id ≡ false) c ds (ground (arith, h.0)) k.0,
    insert-AreDistinct le c ds h.1 k.1,
  )
]

pub sort-AreDistinct :
    (le : Candidate → Candidate → Bool) (cs : List Candidate)
    → AreDistinct cs
    → AreDistinct (sort le cs)
unfolding sort
sort-AreDistinct le [] h = tt
sort-AreDistinct le (c ∷ cs) h =
    insert-AreDistinct le c (sort le cs) (All-sort le (λ d. eqb d.item.id c.item.id ≡ false) cs h.0)
      (sort-AreDistinct le cs h.1)
