-- ===== src/Privacy.antt =====
-- The privacy guard of services/privacy.py. The detectors' regular expressions are parameters:
-- a detector has what `finditer` gives for a text, the start and the end of each match. So are the
-- digits: the value that `int` gives to a character for which `isdigit` holds.
pub mod Luhn
pub mod Selection
pub mod Redaction
use universal_agent_memory.Prelude.{
  ℕ, zero, suc, ◌+◌, ◌-◌, ◌*◌, ◌%◌, Bool, true, false, not, ◌&&◌, ◌||◌, Option, none, some, List,
  [], ◌∷◌, ◌++◌, map, ltb, leb, eqb, if◌then◌else◌, ◌==◌, nat_eq, list_eq, length, take, drop,
  filter,
}
use universal_agent_memory.Text.{Text, text}
use universal_agent_memory.Sorting.{sort}
use universal_agent_memory.Dict
use universal_agent_memory.Dict.{Dict}
use universal_agent_memory.Domain.Errors.{Result, ok, err, value_error}
use universal_agent_memory.Domain.Json.{
  Json, Items, Fields, Metadata, str, number, arr, obj, nil, cons, end, field,
}

pub data PrivacyAction : Type 0 where
  allow redact_text reject metadata_only : PrivacyAction

pub record PrivacyFinding : Type 0 where
  pub kind : Text
  pub start : ℕ
  pub end : ℕ

pub record PrivacyDecision : Type 0 where
  pub text : Text
  pub findings : List PrivacyFinding
  pub action : PrivacyAction
  pub metadata : Metadata

pub record Detector : Type 0 where
  pub kind : Text
  pub matches : Text → List (ℕ × ℕ)
  pub has_luhn_check : Bool

pub record PrivacyGuard : Type 0 where
  pub enabled : Bool
  pub action : PrivacyAction

-- One digit's part of the checksum.
unfoldable pub luhn_digit : ℕ → ℕ → ℕ → ℕ
luhn_digit parity index digit =
    if index % 2 == parity then (if ltb 9 (digit * 2) then digit * 2 - 9 else digit * 2) else digit

-- The loop over `enumerate(digits)`.
unfoldable pub luhn_sum : ℕ → ℕ → List ℕ → ℕ
luhn_sum parity index [] = 0
luhn_sum parity index (d ∷ ds) = luhn_digit parity index d + luhn_sum parity (index + 1) ds

-- `_luhn_valid`, of the digits.
unfoldable pub luhn_digits_valid : List ℕ → Bool
luhn_digits_valid ds =
    leb 13 (length ds) && leb (length ds) 19 && luhn_sum (length ds % 2) 0 ds % 10 == 0

-- `[int(ch) for ch in raw if ch.isdigit()]`
unfoldable pub digits_of : (ℕ → Option ℕ) → Text → List ℕ
digits_of digit [] = []
digits_of digit (c ∷ raw) =
    let rest = digits_of digit raw in elim (digit c) [ none ↦ rest | some d ↦ d ∷ rest ]

-- `_luhn_valid`
unfoldable pub luhn_valid : (ℕ → Option ℕ) → Text → Bool
luhn_valid digit raw = luhn_digits_valid (digits_of digit raw)

-- The matches of one detector that its validator lets pass.
unfoldable pub findings_of : (ℕ → Option ℕ) → Detector → Text → List (ℕ × ℕ) → List PrivacyFinding
findings_of digit d s [] = []
findings_of digit d s ((from, to) ∷ spans) =
    let rest = findings_of digit d s spans in
    if d.has_luhn_check && not (luhn_valid digit (take (to - from) (drop from s)))
    then rest
    else record { kind = d.kind; start = from; end = to } ∷ rest

-- The loop over the detectors.
unfoldable pub all_findings : (ℕ → Option ℕ) → List Detector → Text → List PrivacyFinding
all_findings digit [] s = []
all_findings digit (d ∷ ds) s = findings_of digit d s (d.matches s) ++ all_findings digit ds s

-- The sort key `(start, -(end - start))`.
unfoldable pub not_after : PrivacyFinding → PrivacyFinding → Bool
not_after f g =
    ltb f.start g.start || (f.start == g.start && leb (g.end - g.start) (f.end - f.start))

-- The loop that selects; `covered_until` begins with -1 in the code, which no start is below, as
-- none is below 0.
unfoldable pub select : ℕ → List PrivacyFinding → List PrivacyFinding
select covered_until [] = []
select covered_until (f ∷ fs) = elim (ltb f.start covered_until) [
  | true ↦ select covered_until fs
  | false ↦ f ∷ select f.end fs
]

-- `scan`
unfoldable pub scan : (ℕ → Option ℕ) → List Detector → Text → List PrivacyFinding
scan digit detectors s = select 0 (sort not_after (all_findings digit detectors s))

-- `f"[REDACTED:{finding.kind}]"`
unfoldable pub marker : Text → Text
marker kind = text "[REDACTED:" ++ (kind ++ text "]")

-- `sanitized[:finding.start] + … + sanitized[finding.end:]`
unfoldable pub replace_span : PrivacyFinding → Text → Text
replace_span f s = take f.start s ++ (marker f.kind ++ drop f.end s)

-- The loop of `_redact`.
unfoldable pub replace_all : List PrivacyFinding → Text → Text
replace_all [] s = s
replace_all (f ∷ fs) s = replace_all fs (replace_span f s)

abbrev pub starts_later : PrivacyFinding → PrivacyFinding → Bool
starts_later f g = leb g.start f.start

-- `_redact`
unfoldable pub redact : Text → List PrivacyFinding → Text
redact s findings = replace_all (sort starts_later findings) s

abbrev or_zero : Option ℕ → ℕ
or_zero none = 0
or_zero (some n) = n

-- `counts[finding.kind] = counts.get(finding.kind, 0) + 1`, for each finding.
unfoldable pub count_kinds : Dict Text ℕ → List PrivacyFinding → Dict Text ℕ
count_kinds counts [] = counts
count_kinds counts (f ∷ fs) =
    count_kinds (Dict.put f.kind (or_zero (Dict.get f.kind counts) + 1) counts) fs

-- Python's order of strings.
unfoldable pub text_leb : Text → Text → Bool
text_leb [] t = true
text_leb (c ∷ s) [] = false
text_leb (c ∷ s) (d ∷ t) = ltb c d || (eqb c d && text_leb s t)

unfoldable pub json_texts : List Text → Items
json_texts [] = nil
json_texts (t ∷ ts) = cons (str t) (json_texts ts)

unfoldable pub json_counts : Dict Text ℕ → Fields
json_counts [] = end
json_counts ((k, n) ∷ d) = field k (number n) (json_counts d)

abbrev pub action_value : PrivacyAction → Text
action_value allow = text "allow"
action_value redact_text = text "redact"
action_value reject = text "reject"
action_value metadata_only = text "metadata_only"

-- `_metadata`
unfoldable pub guard_metadata : List PrivacyFinding → PrivacyAction → Metadata
guard_metadata findings action =
    let counts = count_kinds [] findings in
    (
      text "privacy",
      obj (
          field (text "action") (str (action_value action)) (
            field (text "finding_count") (number (length findings)) (
              field (text "finding_kinds")
                (arr (json_texts (sort text_leb (map (λ e. e.0) counts))))
                (field (text "counts") (obj (json_counts counts)) end)))),
    )
    ∷ []

abbrev pub unchanged : Text → PrivacyDecision
unchanged s = record { text = s; findings = []; action = allow; metadata = [] }

-- What `apply` does with findings; the error's list of kinds is left out.
unfoldable pub decide : PrivacyAction → Text → List PrivacyFinding → Result PrivacyDecision
decide action s [] = ok (unchanged s)
decide reject s (f ∷ fs) = err (value_error "privacy guard rejected sensitive content")
decide metadata_only s (f ∷ fs) = ok (record {
  text = text "[content withheld by privacy guard]";
  findings = f ∷ fs;
  action = metadata_only;
  metadata = guard_metadata (f ∷ fs) metadata_only;
})
decide redact_text s (f ∷ fs) = ok (record {
  text = redact s (f ∷ fs);
  findings = f ∷ fs;
  action = redact_text;
  metadata = guard_metadata (f ∷ fs) redact_text;
})
decide allow s (f ∷ fs) = ok (record {
  text = s;
  findings = f ∷ fs;
  action = allow;
  metadata = guard_metadata (f ∷ fs) allow;
})

-- `apply`
unfoldable pub apply : (ℕ → Option ℕ) → List Detector → PrivacyGuard → Text → Result PrivacyDecision
apply digit detectors self s =
    if self.enabled then decide self.action s (scan digit detectors s) else ok (unchanged s)
