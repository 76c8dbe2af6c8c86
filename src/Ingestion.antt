-- ===== src/Ingestion.antt =====
-- The text chunker of services/ingestion.py. A text is its code points, so offsets count
-- characters as Python's slices do.
pub mod Window
pub mod Coverage
pub mod FirstChunk
use universal_agent_memory.Prelude.{
  ℕ, zero, suc, ◌+◌, ◌-◌, ◌/◌, ◌≤◌, min, max, Bool, true, false, not, ◌&&◌, ◌||◌, Option, none,
  some, List, [], ◌∷◌, ◌++◌, ltb, leb, eqb, if◌then◌else◌, length, take, drop,
}
use universal_agent_memory.Text.{Text, strip, rstrip, is_blank}
use universal_agent_memory.Domain.Errors.{Result, ok, value_error, raise_if, ◌>>=◌, ◌>>◌}

-- The separators of `str.splitlines`.
unfoldable pub is_line_break : ℕ → Bool
is_line_break c =
    (leb 10 c && leb c 13) || (leb 28 c && leb c 30) || eqb c 0x85 || eqb c 0x2028 || eqb c 0x2029

-- A character in front of the first line.
cons_char : ℕ → List Text → List Text
cons_char c [] = (c ∷ []) ∷ []
cons_char c (line ∷ lines) = (c ∷ line) ∷ lines

-- `s.splitlines()`; `after_cr` says that a carriage return stands before, whose line feed belongs
-- to the same line break.
unfoldable pub split_lines : Bool → Text → List Text
unfolding cons_char
split_lines after_cr [] = []
split_lines after_cr (c ∷ s) = elim (after_cr && eqb c 10) [
  | true ↦ split_lines false s
  | false ↦ elim (is_line_break c) [
    | true ↦ [] ∷ split_lines (eqb c 13) s
    | false ↦ cons_char c (split_lines false s)
  ]
]

-- `"\n".join(line.rstrip() for line in lines)`
unfoldable pub join_stripped : List Text → Text
join_stripped [] = []
join_stripped (line ∷ []) = rstrip line
join_stripped (line ∷ next ∷ lines) = rstrip line ++ (10 ∷ join_stripped (next ∷ lines))

unfoldable pub normalize : Text → Text
normalize text = join_stripped (split_lines false (strip text))

-- `s[start:end]`
abbrev pub slice : ℕ → ℕ → Text → Text
slice start end s = take (end - start) (drop start s)

unfoldable pub starts_with : Text → Text → Bool
starts_with [] s = true
starts_with (c ∷ sub) [] = false
starts_with (c ∷ sub) (d ∷ s) = eqb c d && starts_with sub s

-- The last index from `low` up to the given one where `sub` stands.
unfoldable pub search_down : Text → ℕ → Text → ℕ → Option ℕ
unfolding starts_with
search_down sub low s zero = if leb low 0 && starts_with sub s then some 0 else none
search_down sub low s (suc i) = elim (ltb (suc i) low) [
  | true ↦ none
  | false ↦ elim (starts_with sub (drop (suc i) s)) [
    | true ↦ some (suc i)
    | false ↦ search_down sub low s i
  ]
]

-- `s.rfind(sub, low, high)`, for `high` up to the length; `none` is -1.
unfoldable pub rfind : Text → ℕ → ℕ → Text → Option ℕ
rfind sub low high s =
    if leb (length sub) high then search_down sub low s (high - length sub) else none

-- `max(paragraph + 2 if paragraph >= 0 else -1, sentence + 2)`. Where no sentence ends, `sentence`
-- is -1 and the second is 1; it is never below 1, so 0 does for the first where the code has -1.
unfoldable pub boundary : Option ℕ → Option ℕ → ℕ
boundary none none = 1
boundary none (some sentence) = sentence + 2
boundary (some paragraph) none = max (paragraph + 2) 1
boundary (some paragraph) (some sentence) = max (paragraph + 2) (sentence + 2)

abbrev pub paragraph_break : Text
paragraph_break = 10 ∷ 10 ∷ []

abbrev pub sentence_end : Text
sentence_end = b'.' ∷ b' ' ∷ []

-- The end of the window that begins at `start`.
unfoldable pub window_end : ℕ → ℕ → Text → ℕ
unfolding rfind
window_end size start s =
    let hard_end = min (length s) (start + size) in
    let low = start + size / 2 in
    let cut = boundary (rfind paragraph_break low hard_end s) (rfind sentence_end low hard_end s) in
    if ltb hard_end (length s) && ltb start cut then cut else hard_end

pub record Chunk : Type 0 where
  pub start : ℕ
  pub end : ℕ
  pub text : Text

-- `if chunk: chunks.append(...)`, in front of what the later rounds append.
unfoldable pub add_chunk : ℕ → ℕ → Text → List Chunk → List Chunk
add_chunk start end s rest =
    let chunk = strip (slice start end s) in
    elim chunk [ [] ↦ rest | c ∷ cs ↦ record { start = start; end = end; text = c ∷ cs } ∷ rest ]

-- The loop, with fuel for its rounds.
unfoldable pub chunks_from : ℕ → ℕ → ℕ → Text → ℕ → List Chunk
chunks_from zero size overlap s start = []
chunks_from (suc fuel) size overlap s start = elim (ltb start (length s)) [
  | false ↦ []
  | true ↦
      let end = window_end size start s in
      add_chunk start end s (elim (leb (length s) end) [
        | true ↦ []
        | false ↦ chunks_from fuel size overlap s (max (start + 1) (end - overlap))
      ])
]

-- `TextChunker.split`; each round begins at a later character, so there are no more rounds than
-- characters.
unfoldable pub split : Text → ℕ → ℕ → List Chunk
split text size overlap =
    let normalized = normalize text in chunks_from (length normalized) size overlap normalized 0
