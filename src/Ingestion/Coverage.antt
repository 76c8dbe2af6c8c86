-- ===== src/Ingestion/Coverage.antt =====
-- Proofs on what the chunks of services/ingestion.py cover.
use universal_agent_memory.Prelude.{
  ℕ, zero, suc, ◌+◌, ◌-◌, ◌≤◌, ◌<◌, max, ◌≡◌, refl, sym, ap, ◌∙◌, inl, inr, Bool, true, false, ◌&&◌,
  List, [], ◌∷◌, arith, ltb, leb, length, take, drop, drop-drop, any, all, All, Bool-cases,
}
use universal_agent_memory.Text.{Text, is_space, strip, is_blank, is_blank-eq-all}
use universal_agent_memory.Ingestion.{
  Chunk, slice, normalize, window_end, add_chunk, chunks_from, split,
}
use universal_agent_memory.Ingestion.Window.{window_end-bounds}

drop-lt : (p : ℕ) (s : Text) (c : ℕ) (rest : Text) → drop p s ≡ c ∷ rest → p < length s
drop-lt zero [] c rest h = absurd (cc)
drop-lt (suc p) [] c rest h = absurd (cc)
drop-lt zero (d ∷ s) c rest h = omega arith
drop-lt (suc p) (d ∷ s) c rest h = omega (arith, drop-lt p s c rest h)

take-not_blank :
    (k n : ℕ) (s : Text) (c : ℕ) (rest : Text)
    → k < n
    → drop k s ≡ c ∷ rest
    → is_space c ≡ false
    → all is_space (take n s) ≡ false
take-not_blank k zero s c rest h e w = absurd (omega arith)
take-not_blank zero (suc n) [] c rest h e w = absurd (cc)
take-not_blank (suc k) (suc n) [] c rest h e w = absurd (cc)
take-not_blank zero (suc n) (d ∷ s) c rest h e w = ground arith
take-not_blank (suc k) (suc n) (d ∷ s) c rest h e w =
    ground (arith, take-not_blank k n s c rest (omega arith) e w)

slice-not_blank :
    (start end p : ℕ) (s : Text) (c : ℕ) (rest : Text)
    → start ≤ p
    → p < end
    → drop p s ≡ c ∷ rest
    → is_space c ≡ false
    → is_blank (slice start end s) ≡ false
slice-not_blank start end p s c rest h k e w =
    let shift : start + (p - start) ≡ p = omega arith in
    is_blank-eq-all (slice start end s)
    ∙ take-not_blank (p - start) (end - start) (drop start s) c rest (omega arith)
        (drop-drop start (p - start) s ∙ ap (λ i. drop i s) shift ∙ e) w

strip-cons : (s : Text) → is_blank s ≡ false → (c : ℕ) × (cs : Text) × (strip s ≡ c ∷ cs)
unfolding is_blank
strip-cons s h = by_text (strip s) refl
  where
    by_text : (t : Text) → strip s ≡ t → (c : ℕ) × (cs : Text) × (strip s ≡ c ∷ cs)
    by_text [] e = absurd (ground (arith, e, h))
    by_text (c ∷ cs) e = (c, cs, e)

strip-empty : (s : Text) → is_blank s ≡ true → strip s ≡ []
unfolding is_blank
strip-empty s h = by_text (strip s) refl
  where
    by_text : (t : Text) → strip s ≡ t → strip s ≡ []
    by_text [] e = e
    by_text (c ∷ cs) e = absurd (ground (arith, e, h))

-- The character at `p` lies in the chunk's window.
abbrev pub covers : ℕ → Chunk → Bool
covers p chunk = leb chunk.start p && ltb p chunk.end

add_chunk-covers :
    (start end p : ℕ) (s : Text) (rest : List Chunk)
    → start ≤ p
    → p < end
    → is_blank (slice start end s) ≡ false
    → any (covers p) (add_chunk start end s rest) ≡ true
unfolding add_chunk
add_chunk-covers start end p s rest h k w =
    let (c, cs, e) = strip-cons (slice start end s) w in rw (e, add_chunk) (ground arith)

add_chunk-keeps :
    (q : Chunk → Bool) (start end : ℕ) (s : Text) (rest : List Chunk)
    → any q rest ≡ true
    → any q (add_chunk start end s rest) ≡ true
unfolding add_chunk
add_chunk-keeps q start end s rest h = ground arith

module _ (size overlap : ℕ) (s : Text) where
  abbrev pub next_start : ℕ → ℕ
  next_start start = max (start + 1) (window_end size start s - overlap)

  pub chunks_from-last :
      (fuel start : ℕ)
      → ltb start (length s) ≡ true
      → leb (length s) (window_end size start s) ≡ true
      → chunks_from (suc fuel) size overlap s start ≡ add_chunk start (window_end size start s) s []
  unfolding chunks_from
  chunks_from-last fuel start e f = rw (e, chunks_from, f)

  pub chunks_from-more :
      (fuel start : ℕ)
      → ltb start (length s) ≡ true
      → leb (length s) (window_end size start s) ≡ false
      → chunks_from (suc fuel) size overlap s start
        ≡ add_chunk start
            (window_end size start s)
            s
            (chunks_from fuel size overlap s (next_start start))
  unfolding chunks_from
  chunks_from-more fuel start e f = rw (e, chunks_from, f)

  module _ (p c : ℕ) (after : Text) (positive : 1 ≤ size) (at : drop p s ≡ c ∷ after)
      (visible : is_space c ≡ false) where
    chunks_from-covers :
        (fuel start : ℕ)
        → length s - start ≤ fuel
        → start ≤ p
        → any (covers p) (chunks_from fuel size overlap s start) ≡ true
    chunks_from-covers zero start enough h = absurd (omega (arith, drop-lt p s c after at))
    chunks_from-covers (suc fuel) start enough h =
        let inside = drop-lt p s c after at in
        let end = window_end size start s in
        let going : ltb start (length s) ≡ true = ground arith in
        let (longer, _, _) = window_end-bounds size start s positive (omega arith) in
        elim (Bool-cases (leb (length s) end)) [
          | inl last ↦ rw (chunks_from-last fuel start going last) (
              add_chunk-covers start end p s [] h (ground arith)
                (slice-not_blank start end p s c after h (ground arith) at visible))
          | inr more ↦ elim (Bool-cases (ltb p end)) [
            | inl here ↦ rw (chunks_from-more fuel start going more) (
                add_chunk-covers start end p s _ h (ground arith)
                  (slice-not_blank start end p s c after h (ground arith) at visible))
            | inr later ↦
                let ahead : end ≤ p = ground arith in
                rw (chunks_from-more fuel start going more) (
                  add_chunk-keeps (covers p) start end s _
                    (chunks_from-covers fuel (next_start start) (omega arith) (omega arith)))
          ]
        ]

-- For a positive size, whatever the overlap, the loop ends and loses nothing: every character of
-- the normalized text that is no white space lies in the window of a chunk.
pub split-covers :
    (text : Text) (size overlap p c : ℕ) (after : Text)
    → 1 ≤ size
    → drop p (normalize text) ≡ c ∷ after
    → is_space c ≡ false
    → any (covers p) (split text size overlap) ≡ true
unfolding split
split-covers text size overlap p c after h at visible =
    let s = normalize text in
    chunks_from-covers size overlap s p c after h at visible (length s) 0 (omega arith)
      (omega arith)

-- What a chunk is: the stripped text of a window in the text, not empty and of bounded length.
abbrev pub IsWindow : ℕ → Text → Chunk → Type 0
IsWindow size s chunk =
    (chunk.start < chunk.end)
    × (chunk.end ≤ length s)
    × (chunk.end ≤ chunk.start + size)
    × (chunk.text ≡ strip (slice chunk.start chunk.end s))
    × (is_blank (slice chunk.start chunk.end s) ≡ false)

add_chunk-IsWindow :
    (size start end : ℕ) (s : Text) (rest : List Chunk)
    → start < end
    → end ≤ length s
    → end ≤ start + size
    → All (IsWindow size s) rest
    → All (IsWindow size s) (add_chunk start end s rest)
unfolding add_chunk
add_chunk-IsWindow size start end s rest h k m w =
    elim (Bool-cases (is_blank (slice start end s))) [
      | inl blank ↦ let e = strip-empty (slice start end s) blank in rw (e, add_chunk) w
      | inr shown ↦
          let (c, cs, e) = strip-cons (slice start end s) shown in
          rw (e, add_chunk) ((h, k, m, sym e, shown), w)
    ]

chunks_from-IsWindow :
    (size overlap : ℕ) (s : Text) (fuel start : ℕ)
    → 1 ≤ size
    → All (IsWindow size s) (chunks_from fuel size overlap s start)
unfolding chunks_from
chunks_from-IsWindow size overlap s zero start h = tt
chunks_from-IsWindow size overlap s (suc fuel) start h = elim (Bool-cases (ltb start (length s))) [
  | inr over ↦ rw (over, chunks_from) tt
  | inl going ↦
      let end = window_end size start s in
      let (longer, inside, bounded) = window_end-bounds size start s h (ground (arith, going)) in
      elim (Bool-cases (leb (length s) end)) [
        | inl last ↦
            rw (chunks_from-last size overlap s fuel start going last)
              (add_chunk-IsWindow size start end s [] longer inside bounded tt)
        | inr more ↦ rw (chunks_from-more size overlap s fuel start going more) (
            add_chunk-IsWindow size start end s _ longer inside bounded
              (chunks_from-IsWindow size overlap s fuel (next_start size overlap s start) h))
      ]
]

-- Every chunk is the stripped text of a window of the normalized text that is not blank and has at
-- most `size` characters, for a positive size.
pub split-IsWindow :
    (text : Text) (size overlap : ℕ)
    → 1 ≤ size
    → All (IsWindow size (normalize text)) (split text size overlap)
unfolding split
split-IsWindow text size overlap h =
    chunks_from-IsWindow size overlap (normalize text) (length (normalize text)) 0 h
