-- ===== src/Privacy/Redaction.antt =====
-- Proofs on `_redact` of services/privacy.py.
use universal_agent_memory.Prelude.{
  ℕ, zero, suc, ◌+◌, ◌-◌, ◌≤◌, ◌<◌, ◌≡◌, refl, sym, ap, ◌∙◌, Option, List, [], ◌∷◌, ◌++◌, arith,
  length, take, drop, take-append-drop, take-drop-append, All, All-map,
}
use mathlib.Core.List.{append_assoc}
use universal_agent_memory.Text.{Text}
use universal_agent_memory.Sorting.{sort, insert, All-sort}
use universal_agent_memory.Privacy.{
  PrivacyFinding, Detector, marker, replace_span, replace_all, starts_later, redact, scan,
}
use universal_agent_memory.Privacy.Selection.{IsSpan, IsSeparated, AreMatches, scan-IsSeparated}

-- The text with each finding's span left out for its marker, from `pos` on, read from the left.
abbrev pub pieces : ℕ → List PrivacyFinding → Text → Text
pieces pos [] s = drop pos s
pieces pos (f ∷ fs) s = take (f.start - pos) (drop pos s) ++ (marker f.kind ++ pieces f.end fs s)

replace_all-append :
    (fs gs : List PrivacyFinding) (s : Text)
    → replace_all (fs ++ gs) s ≡ replace_all gs (replace_all fs s)
unfolding replace_all
replace_all-append [] gs s = refl
replace_all-append (f ∷ fs) gs s = replace_all-append fs gs (replace_span f s)

-- Behind findings that start later, an earlier one comes last in the descending order.
insert-last :
    (f : PrivacyFinding) (gs : List PrivacyFinding)
    → All (λ g. f.start < g.start) gs
    → insert starts_later f gs ≡ gs ++ (f ∷ [])
unfolding insert
insert-last f [] h = refl
insert-last f (g ∷ gs) h = ground (arith, h.0, insert-last f gs h.1)

take-of_append : (a b : ℕ) (s t : Text) → a ≤ b → b ≤ length s → take a (take b s ++ t) ≡ take a s
take-of_append zero b s t h k = refl
take-of_append (suc a) zero s t h k = absurd (omega arith)
take-of_append (suc a) (suc b) [] t h k = absurd (omega arith)
take-of_append (suc a) (suc b) (c ∷ s) t h k =
    ap (◌∷◌ c) (take-of_append a b s t (omega arith) (omega arith))

drop-of_append : (b : ℕ) (s t : Text) → b ≤ length s → drop b (take b s ++ t) ≡ t
drop-of_append zero s t h = refl
drop-of_append (suc b) [] t h = absurd (omega arith)
drop-of_append (suc b) (c ∷ s) t h = drop-of_append b s t (omega arith)

IsSeparated-later :
    (low size : ℕ) (fs : List PrivacyFinding)
    → IsSeparated low size fs
    → All (λ g. low ≤ g.start) fs
IsSeparated-later low size [] h = tt
IsSeparated-later low size (f ∷ fs) h =
    (h.0, All-map (λ g k. omega (arith, h.0, h.1.0, k)) fs (IsSeparated-later f.end size fs h.2))

sort-eq-append :
    (low size : ℕ) (f : PrivacyFinding) (fs : List PrivacyFinding)
    → IsSeparated low size (f ∷ fs)
    → sort starts_later (f ∷ fs) ≡ sort starts_later fs ++ f ∷ []
unfolding sort
sort-eq-append low size f fs h = insert-last f (sort starts_later fs) (
    All-sort starts_later (λ g. f.start < g.start) fs
      (All-map (λ g k. omega (arith, h.1.0, k)) fs (IsSeparated-later f.end size fs h.2)))

replace_span-of_take :
    (f : PrivacyFinding) (s t : Text)
    → IsSpan (length s) f
    → replace_span f (take f.end s ++ t) ≡ take f.start s ++ (marker f.kind ++ t)
unfolding replace_span
replace_span-of_take f s t h =
    rw (take-of_append f.start f.end s t (omega (arith, h.0)) h.1, drop-of_append f.end s t h.1)

replace_all-one : (f : PrivacyFinding) (s : Text) → replace_all (f ∷ []) s ≡ replace_span f s
unfolding replace_all
replace_all-one f s = refl

replace_all-eq-pieces :
    (pos : ℕ) (fs : List PrivacyFinding) (s : Text)
    → IsSeparated pos (length s) fs
    → replace_all (sort starts_later fs) s ≡ take pos s ++ pieces pos fs s
replace_all-eq-pieces pos [] s h = unfold replace_all in unfold sort in sym (take-append-drop pos s)
replace_all-eq-pieces pos (f ∷ fs) s h =
    let shift : pos + (f.start - pos) ≡ f.start = omega (arith, h.0) in
    ap (λ gs. replace_all gs s) (sort-eq-append pos (length s) f fs h)
    ∙ replace_all-append (sort starts_later fs) (f ∷ []) s
    ∙ ap (replace_all (f ∷ [])) (replace_all-eq-pieces f.end fs s h.2)
    ∙ replace_all-one f (take f.end s ++ pieces f.end fs s)
    ∙ replace_span-of_take f s (pieces f.end fs s) h.1
    ∙ ap (λ t. t ++ (marker f.kind ++ pieces f.end fs s))
        (ap (λ n. take n s) (sym shift) ∙ sym (take-drop-append pos (f.start - pos) s))
    ∙ append_assoc (take pos s) (take (f.start - pos) (drop pos s))
        (marker f.kind ++ pieces f.end fs s)

-- If each detector's matches are spans of the text that are not empty, the redacted text is the
-- text read once from the left with a marker for each finding that `scan` returns: replacing from
-- the right leaves every offset that is still to be used in force.
pub redact-eq-pieces :
    (digit : ℕ → Option ℕ) (detectors : List Detector) (s : Text)
    → All (λ d. AreMatches (length s) (d.matches s)) detectors
    → redact s (scan digit detectors s) ≡ pieces 0 (scan digit detectors s) s
unfolding redact
redact-eq-pieces digit detectors s h =
    replace_all-eq-pieces 0 (scan digit detectors s) s (scan-IsSeparated digit detectors s h)
