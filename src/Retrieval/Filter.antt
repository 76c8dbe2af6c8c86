-- ===== src/Retrieval/Filter.antt =====
-- Proofs on what `recall` of services/retrieval.py returns.
use universal_agent_memory.Prelude.{
  ℕ, ◌≡◌, refl, sym, ap, ◌∙◌, inl, inr, true, Option, none, some, List, [], ◌∷◌, arith, nat_eq, All,
  Bool-cases,
}
use mathlib.Core.Path.{subst}
use universal_agent_memory.Text.{Text}
use universal_agent_memory.Dict
use universal_agent_memory.Dict.{
  Dict, values, HasDistinctKeys, put-HasDistinctKeys, All-put, All-get,
}
use universal_agent_memory.Domain.Errors.{Error, Result-cases, ok, err}
use universal_agent_memory.Context.{Candidate}
use universal_agent_memory.Retrieval.Sources.{
  RecallQuery, Search, found, raised, CandidateSource, SourceHealth, RetrievalService,
  record_success, record_failure,
}
use universal_agent_memory.Retrieval.Groups.{
  is_admitted, Group, add_to_group, group_candidate, group_all,
}
use universal_agent_memory.Retrieval.{
  Progress, after_failure, after_success, search_source, search_all,
}

-- Each group stands once, under the identity of its admitted first candidate.
abbrev pub HoldsGroup : RecallQuery → ℕ × Group → Type 0
HoldsGroup query e = (e.1.first.item.id ≡ e.0) × (is_admitted query e.1.first ≡ true)

abbrev pub AreGroups : RecallQuery → Dict ℕ Group → Type 0
AreGroups query grouped = HasDistinctKeys grouped × All (HoldsGroup query) grouped

group_candidate-AreGroups :
    (query : RecallQuery) (c : Candidate) (grouped : Dict ℕ Group)
    → is_admitted query c ≡ true
    → AreGroups query grouped
    → AreGroups query (group_candidate c grouped)
unfolding group_candidate add_to_group
group_candidate-AreGroups query c grouped admitted (d, a) = (
  put-HasDistinctKeys c.item.id _ grouped d,
  All-put (HoldsGroup query) c.item.id _ grouped (λ j q. held j q (Dict.get c.item.id grouped) refl)
      a,
)
  where
    held :
        (j : ℕ)
        → j ≡ c.item.id
        → (o : Option Group) → Dict.get c.item.id grouped ≡ o
        → HoldsGroup query (j, add_to_group c o)
    held j q none e = (sym q, admitted)
    held j q (some g) e =
        let (i, w) = All-get (HoldsGroup query) c.item.id grouped a e in (i ∙ sym q, w)

group_all-AreGroups :
    (query : RecallQuery) (cs : List Candidate) (grouped : Dict ℕ Group)
    → AreGroups query grouped
    → AreGroups query (group_all query cs grouped)
unfolding group_all
group_all-AreGroups query [] grouped h = h
group_all-AreGroups query (c ∷ cs) grouped h = elim (Bool-cases (is_admitted query c)) [
  | inl e ↦
      rw (e, group_all)
        (group_all-AreGroups query cs (group_candidate c grouped)
          (group_candidate-AreGroups query c grouped e h))
  | inr e ↦ rw (e, group_all) (group_all-AreGroups query cs grouped h)
]

after_failure-grouped :
    (self : RetrievalService) (name error_type : Text) (p : Progress) {next : Progress}
    → after_failure self name error_type p ≡ ok next
    → next.grouped ≡ p.grouped
unfolding after_failure
after_failure-grouped self name error_type p {next} h = ground (arith, h)

after_success-grouped :
    (query : RecallQuery) (name : Text) (cs : List Candidate) (p : Progress) {next : Progress}
    → after_success query name cs p ≡ ok next
    → next.grouped ≡ group_all query cs p.grouped
unfolding after_success
after_success-grouped query name cs p {next} h = ground (arith, h)

module _ (self : RetrievalService) (query : RecallQuery) (source : CandidateSource) (p : Progress)
    (health : Dict Text SourceHealth) where
  pub search_source-raised :
      {error_type : Text}
      → source.search query ≡ raised error_type
      → search_source self query source p health ≡ (
        after_failure self source.name error_type p,
        record_failure self source.name error_type health,
      )
  unfolding search_source
  search_source-raised s = rw (s, search_source) refl

  pub search_source-found :
      {cs : List Candidate}
      → source.search query ≡ found cs
      → search_source self query source p health
        ≡ (after_success query source.name cs p, record_success source.name health)
  unfolding search_source
  search_source-found s = rw (s, search_source) refl

  pub search_all-ok :
      (sources : List CandidateSource) {next : Progress}
      → (search_source self query source p health).0 ≡ ok next
      → search_all self query (source ∷ sources) p health
        ≡ search_all self query sources next (search_source self query source p health).1
  unfolding search_all
  search_all-ok sources s = rw (s, search_all) refl

  pub search_all-err :
      (sources : List CandidateSource) {e : Error}
      → (search_source self query source p health).0 ≡ err e
      → (search_all self query (source ∷ sources) p health).0 ≡ err e
  unfolding search_all
  search_all-err sources s = rw (s, search_all) refl

  search_source-AreGroups :
      {next : Progress}
      → AreGroups query p.grouped
      → (search_source self query source p health).0 ≡ ok next
      → AreGroups query next.grouped
  search_source-AreGroups {next} h e = by_search (source.search query) refl
    where
      by_search : (x : Search) → source.search query ≡ x → AreGroups query next.grouped
      by_search (raised error_type) s =
          let e' = ap (λ r. r.0) (sym (search_source-raised s)) ∙ e in
          subst (AreGroups query) (sym (after_failure-grouped self source.name error_type p e')) h
      by_search (found cs) s =
          let e' = ap (λ r. r.0) (sym (search_source-found s)) ∙ e in
          subst (AreGroups query) (sym (after_success-grouped query source.name cs p e'))
            (group_all-AreGroups query cs p.grouped h)

pub search_all-AreGroups :
    (self : RetrievalService) (query : RecallQuery) (sources : List CandidateSource) (p : Progress)
    (health : Dict Text SourceHealth) {last : Progress}
    → AreGroups query p.grouped
    → (search_all self query sources p health).0 ≡ ok last
    → AreGroups query last.grouped
search_all-AreGroups self query [] p health {last} h e =
    let same : p ≡ last = unfold search_all in ground (arith, e) in
    subst (λ q. AreGroups query q.grouped) same h
search_all-AreGroups self query (source ∷ sources) p health {last} h e =
    elim (Result-cases (search_source self query source p health).0) [
      | inl (r, s) ↦ absurd (cc (e, search_all-err self query source p health sources s))
      | inr (next, s) ↦
          search_all-AreGroups self query sources next (search_source self query source p health).1
            (search_source-AreGroups self query source p health h s)
            (ap (λ r. r.0) (sym (search_all-ok self query source p health sources s)) ∙ e)
    ]
