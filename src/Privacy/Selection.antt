-- ===== src/Privacy/Selection.antt =====
-- Proofs on which findings `scan` of services/privacy.py selects.
use universal_agent_memory.Prelude.{
  ℕ, ◌-◌, ◌≤◌, ◌<◌, ◌≡◌, refl, sym, inl, inr, Bool, true, false, ◌&&◌, ◌||◌, Option, List, [], ◌∷◌,
  arith, ltb, leb, nat_eq, not, length, any, All, All-map, All-append, All-In, All-of_In,
  Bool-cases, take, drop,
}
use mathlib.Core.Path.{subst}
use universal_agent_memory.Text.{Text}
use universal_agent_memory.Sorting.{sort, IsSorted, sort-IsSorted, All-sort, In-sort}
use universal_agent_memory.Privacy.{
  PrivacyFinding, Detector, luhn_valid, findings_of, all_findings, not_after, select, scan,
}

-- A span of the text that is not empty.
abbrev pub IsSpan : ℕ → PrivacyFinding → Type 0
IsSpan size f = (f.start < f.end) × (f.end ≤ size)

-- The findings stand in the text from `low` on, one behind the other.
abbrev pub IsSeparated : ℕ → ℕ → List PrivacyFinding → Type 0
IsSeparated low size [] = Unit
IsSeparated low size (f ∷ fs) = (low ≤ f.start) × IsSpan size f × IsSeparated f.end size fs

select-IsSeparated :
    (low size : ℕ) (fs : List PrivacyFinding)
    → All (IsSpan size) fs
    → IsSeparated low size (select low fs)
unfolding select
select-IsSeparated low size [] h = tt
select-IsSeparated low size (f ∷ fs) h = elim (Bool-cases (ltb f.start low)) [
  | inl e ↦ rw (e, select) (select-IsSeparated low size fs h.1)
  | inr e ↦ rw (e, select) (ground (arith, e), h.0, select-IsSeparated f.end size fs h.1)
]

-- What `finditer` gives for a text of `size` characters.
abbrev pub AreMatches : ℕ → List (ℕ × ℕ) → Type 0
AreMatches size spans = All (λ p. (p.0 < p.1) × (p.1 ≤ size)) spans

findings_of-IsSpan :
    (digit : ℕ → Option ℕ) (d : Detector) (s : Text) (spans : List (ℕ × ℕ))
    → AreMatches (length s) spans
    → All (IsSpan (length s)) (findings_of digit d s spans)
unfolding findings_of
findings_of-IsSpan digit d s [] h = tt
findings_of-IsSpan digit d s ((a, b) ∷ spans) h =
    elim (Bool-cases (d.has_luhn_check && not (luhn_valid digit (take (b - a) (drop a s))))) [
      | inl e ↦ rw e (findings_of-IsSpan digit d s spans h.1)
      | inr e ↦ rw e (h.0, findings_of-IsSpan digit d s spans h.1)
    ]

all_findings-IsSpan :
    (digit : ℕ → Option ℕ) (detectors : List Detector) (s : Text)
    → All (λ d. AreMatches (length s) (d.matches s)) detectors
    → All (IsSpan (length s)) (all_findings digit detectors s)
unfolding all_findings
all_findings-IsSpan digit [] s h = tt
all_findings-IsSpan digit (d ∷ ds) s h =
    All-append (IsSpan (length s)) (findings_of digit d s (d.matches s)) (all_findings digit ds s)
      (findings_of-IsSpan digit d s (d.matches s) h.0) (all_findings-IsSpan digit ds s h.1)

-- If each detector's matches are spans of the text that are not empty, what `scan` returns stands
-- in the text in order, without overlaps.
pub scan-IsSeparated :
    (digit : ℕ → Option ℕ) (detectors : List Detector) (s : Text)
    → All (λ d. AreMatches (length s) (d.matches s)) detectors
    → IsSeparated 0 (length s) (scan digit detectors s)
unfolding scan
scan-IsSeparated digit detectors s h = select-IsSeparated 0 (length s) _ (
    All-sort not_after (IsSpan (length s)) (all_findings digit detectors s)
      (all_findings-IsSpan digit detectors s h))

not_after-total : (f g : PrivacyFinding) → not_after f g ≡ false → not_after g f ≡ true
unfolding not_after
not_after-total f g h = ground arith

not_after_trans :
    (f g h : PrivacyFinding) → not_after f g ≡ true → not_after g h ≡ true → not_after f h ≡ true
unfolding not_after
not_after_trans f g h p q = ground arith

-- The start of `f` lies in `g`.
abbrev pub starts_in : PrivacyFinding → PrivacyFinding → Bool
starts_in f g = leb g.start f.start && ltb f.start g.end

not_after-start : (f g : PrivacyFinding) → not_after f g ≡ true → f.start ≤ g.start
unfolding not_after
not_after-start f g h = ground arith

select-skip :
    (low : ℕ) (f : PrivacyFinding) (fs : List PrivacyFinding)
    → ltb f.start low ≡ true
    → select low (f ∷ fs) ≡ select low fs
unfolding select
select-skip low f fs e = rw (e, select)

select-take :
    (low : ℕ) (f : PrivacyFinding) (fs : List PrivacyFinding)
    → ltb f.start low ≡ false
    → select low (f ∷ fs) ≡ f ∷ select f.end fs
unfolding select
select-take low f fs e = rw (e, select)

-- Each finding begins in `prior` or in one of `kept`.
abbrev AreHit : PrivacyFinding → List PrivacyFinding → List PrivacyFinding → Type 0
AreHit prior kept fs = All (λ g. (starts_in g prior || any (starts_in g) kept) ≡ true) fs

select-hits :
    (low : ℕ) (prior : PrivacyFinding) (fs : List PrivacyFinding) (size : ℕ)
    → low ≡ prior.end
    → All (λ f. prior.start ≤ f.start) fs
    → IsSorted not_after fs
    → All (IsSpan size) fs
    → AreHit prior (select low fs) fs
select-hits low prior [] size e a o w = tt
select-hits low prior (f ∷ fs) size e a o w = elim (Bool-cases (ltb f.start low)) [
  | inl old ↦
      subst (λ r. AreHit prior r (f ∷ fs)) (sym (select-skip low f fs old))
        (ground (arith, a.0, e, old), select-hits low prior fs size e a.1 o.1 w.1)
  | inr new ↦
      let later =
        select-hits f.end f fs size refl (All-map (λ g p. not_after-start f g p) fs o.0) o.1 w.1 in
      subst (λ r. AreHit prior r (f ∷ fs)) (sym (select-take low f fs new))
        (ground (arith, w.0.0), All-map (λ g p. after g (select f.end fs) p) fs later)
]
  where
    after :
        (g : PrivacyFinding) (rest : List PrivacyFinding)
        → (starts_in g f || any (starts_in g) rest) ≡ true
        → (starts_in g prior || (starts_in g f || any (starts_in g) rest)) ≡ true
    after g rest p = ground (arith, p)

select-hits_every :
    (fs : List PrivacyFinding) (size : ℕ)
    → IsSorted not_after fs
    → All (IsSpan size) fs
    → All (λ f. any (starts_in f) (select 0 fs) ≡ true) fs
select-hits_every [] size o w = tt
select-hits_every (f ∷ fs) size o w =
    let first : ltb f.start 0 ≡ false = ground arith in
    subst (λ r. All (λ g. any (starts_in g) r ≡ true) (f ∷ fs)) (sym (select-take 0 f fs first))
      (
        ground (arith, w.0.0),
        select-hits f.end f fs size refl (All-map (λ g p. not_after-start f g p) fs o.0) o.1 w.1,
      )

-- If each detector's matches are spans of the text that are not empty, every match that its
-- validator lets pass begins inside a finding that `scan` returns.
pub scan-hits :
    (digit : ℕ → Option ℕ) (detectors : List Detector) (s : Text)
    → All (λ d. AreMatches (length s) (d.matches s)) detectors
    → All (λ f. any (starts_in f) (scan digit detectors s) ≡ true) (all_findings digit detectors s)
unfolding scan
scan-hits digit detectors s h =
    let found = all_findings digit detectors s in
    let hits =
      select-hits_every (sort not_after found) (length s)
        (sort-IsSorted not_after not_after-total not_after_trans found)
        (All-sort not_after (IsSpan (length s)) found (all_findings-IsSpan digit detectors s h)) in
    All-of_In found (λ f m.
      All-In (λ f. any (starts_in f) (select 0 (sort not_after found)) ≡ true)
        (sort not_after found) f hits (In-sort not_after f found m))
