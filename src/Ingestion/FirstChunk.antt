-- ===== src/Ingestion/FirstChunk.antt =====
-- Proofs on the first window of the chunker of services/ingestion.py.
use universal_agent_memory.Prelude.{
  ℕ, zero, suc, ◌+◌, ◌-◌, ◌≤◌, ◌<◌, ◌≡◌, refl, ◌∙◌, max, false, none, [], ◌∷◌, arith, leb, eqb,
  length, drop, any,
}
use universal_agent_memory.Text.{Text, is_space, strip}
use universal_agent_memory.Ingestion.Coverage.{chunks_from-more}
use universal_agent_memory.Ingestion.{
  starts_with, search_down, rfind, boundary, window_end, add_chunk, chunks_from,
}

starts_with-absent :
    (x : ℕ) (sub : Text) (i : ℕ) (s : Text)
    → any (eqb x) s ≡ false
    → starts_with (x ∷ sub) (drop i s) ≡ false
unfolding starts_with
starts_with-absent x sub zero [] h = refl
starts_with-absent x sub (suc i) [] h = refl
starts_with-absent x sub zero (c ∷ s) h = ground arith
starts_with-absent x sub (suc i) (c ∷ s) h = starts_with-absent x sub i s (ground (arith, h))

search_down-absent :
    (x : ℕ) (sub : Text) (low : ℕ) (s : Text) (top : ℕ)
    → any (eqb x) s ≡ false
    → search_down (x ∷ sub) low s top ≡ none
unfolding search_down
search_down-absent x sub low s zero h = ground (arith, starts_with-absent x sub 0 s h)
search_down-absent x sub low s (suc top) h =
    ground (arith, starts_with-absent x sub (suc top) s h, search_down-absent x sub low s top h)

rfind-absent :
    (x : ℕ) (sub : Text) (low high : ℕ) (s : Text)
    → any (eqb x) s ≡ false
    → rfind (x ∷ sub) low high s ≡ none
unfolding rfind
rfind-absent x sub low high s h =
    ground (arith, search_down-absent x sub low s (high - length (x ∷ sub)) h)

window_end-absent :
    (size : ℕ) (s : Text)
    → size < length s
    → any (eqb 10) s ≡ false
    → any (eqb b'.') s ≡ false
    → window_end size 0 s ≡ 1
unfolding window_end boundary
window_end-absent size s h no_line no_dot =
    rw (rfind-absent 10 (10 ∷ []) _ _ s no_line, rfind-absent b'.' (b' ' ∷ []) _ _ s no_dot)
      (ground arith)

strip-char : (c : ℕ) → is_space c ≡ false → strip (c ∷ []) ≡ c ∷ []
unfolding strip
strip-char c h = ground (arith, h)

-- In a text that is longer than the size and has neither a line break nor a full stop, the first
-- window has one character: it ends at 1, where the code takes the missing sentence for a boundary,
-- and the next window begins at 1.
pub chunks_from-one_char :
    (size overlap fuel c : ℕ) (s : Text)
    → size < length (c ∷ s)
    → 1 ≤ size
    → any (eqb 10) (c ∷ s) ≡ false
    → any (eqb b'.') (c ∷ s) ≡ false
    → is_space c ≡ false
    → chunks_from (suc fuel) size overlap (c ∷ s) 0
      ≡ record { start = 0; end = 1; text = c ∷ [] } ∷ chunks_from fuel size overlap (c ∷ s) 1
chunks_from-one_char size overlap fuel c s h positive no_line no_dot visible =
    let e = window_end-absent size (c ∷ s) h no_line no_dot in
    let more : leb (length (c ∷ s)) (window_end size 0 (c ∷ s)) ≡ false = rw e (ground arith) in
    let again : max (0 + 1) (1 - overlap) ≡ 1 = omega arith in
    chunks_from-more size overlap (c ∷ s) fuel 0 (ground arith) more
    ∙ (rw (e, again) (unfold add_chunk in rw (strip-char c visible, add_chunk)))
