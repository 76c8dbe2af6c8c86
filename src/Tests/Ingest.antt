-- ===== src/Tests/Ingest.antt =====
-- Examples for the chunker and the privacy guard.
use universal_agent_memory.Prelude.{
  ℕ, ◌≡◌, refl, true, false, Option, none, [], ◌∷◌, arith, drop, any, All,
}
use universal_agent_memory.Text.{Text, text, is_space, strip, lstrip, rstrip}
use universal_agent_memory.Sorting.{sort, insert}
use universal_agent_memory.Ingestion.{
  split_lines, join_stripped, normalize, is_line_break, split, chunks_from,
}
use universal_agent_memory.Ingestion.Coverage.{covers, split-covers}
use universal_agent_memory.Ingestion.FirstChunk.{chunks_from-one_char}
use universal_agent_memory.Privacy.{
  Detector, findings_of, all_findings, not_after, select, scan, marker, replace_span, replace_all,
  redact,
}
use universal_agent_memory.Privacy.Selection.{starts_in, scan-hits}
use universal_agent_memory.Privacy.Redaction.{pieces, redact-eq-pieces}

abbrev note : Text
note = text "tea and milk"

normalizes : normalize note ≡ note
unfolding normalize strip lstrip rstrip is_space split_lines is_line_break join_stripped
normalizes = refl

stands : drop 4 (normalize note) ≡ text "and milk"
unfolding normalize strip lstrip rstrip is_space split_lines is_line_break join_stripped
stands = refl

visible : is_space b'a' ≡ false
unfolding is_space
visible = refl

split-covers_example : any (covers 4) (split note 5 2) ≡ true
split-covers_example = split-covers note 5 2 4 b'a' (text "nd milk") (omega arith) stands visible

chunks_from-one_char_example :
    chunks_from 6 3 1 (text "aaaaa") 0
    ≡ record { start = 0; end = 1; text = text "a" } ∷ chunks_from 5 3 1 (text "aaaaa") 1
chunks_from-one_char_example =
    chunks_from-one_char 3 1 5 b'a' (text "aaaa") (omega arith) (omega arith) refl refl visible

-- A detector that finds the characters from 4 to 7.
abbrev pub word : Detector
word = record { kind = text "word"; matches = λ s. (4, 7) ∷ []; has_luhn_check = false }

abbrev pub no_digit : ℕ → Option ℕ
no_digit c = none

redacts : redact note (scan no_digit (word ∷ []) note) ≡ text "tea [REDACTED:word] milk"
unfolding redact scan all_findings findings_of select sort insert not_after replace_all replace_span
    marker
redacts = refl

redact-eq-pieces_example :
    redact note (scan no_digit (word ∷ []) note) ≡ pieces 0 (scan no_digit (word ∷ []) note) note
redact-eq-pieces_example =
    redact-eq-pieces no_digit (word ∷ []) note (((omega arith, omega arith), tt), tt)

scan-hits_example :
    All
      (λ f. any (starts_in f) (scan no_digit (word ∷ []) note) ≡ true)
      (all_findings no_digit (word ∷ []) note)
scan-hits_example = scan-hits no_digit (word ∷ []) note (((omega arith, omega arith), tt), tt)
