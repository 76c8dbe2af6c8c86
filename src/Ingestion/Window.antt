-- ===== src/Ingestion/Window.antt =====
-- Proofs on one window of the chunker of services/ingestion.py.
use universal_agent_memory.Prelude.{
  ℕ, zero, suc, ◌+◌, ◌-◌, ◌/◌, ◌≤◌, ◌<◌, min, ◌≡◌, refl, Option, none, some, arith, length,
}
use universal_agent_memory.Text.{Text}
use universal_agent_memory.Ingestion.{
  search_down, rfind, boundary, window_end, paragraph_break, sentence_end,
}

search_down-le :
    (sub : Text) (low : ℕ) (s : Text) (top : ℕ) {i : ℕ}
    → search_down sub low s top ≡ some i
    → i ≤ top
unfolding search_down
search_down-le sub low s zero {i} h = ground arith
search_down-le sub low s (suc top) {i} h = ground (arith, search_down-le sub low s top {i = i})

rfind-le :
    (sub : Text) (low high : ℕ) (s : Text) {i : ℕ}
    → rfind sub low high s ≡ some i
    → i + length sub ≤ high
unfolding rfind
rfind-le sub low high s {i} h = ground (arith, search_down-le sub low s (high - length sub) {i = i})

boundary-le :
    (p q : Option ℕ) (high : ℕ)
    → 1 ≤ high
    → ((i : ℕ) → p ≡ some i → i + 2 ≤ high)
    → ((i : ℕ) → q ≡ some i → i + 2 ≤ high)
    → boundary p q ≤ high
unfolding boundary
boundary-le none none high h f g = h
boundary-le none (some j) high h f g = g j refl
boundary-le (some i) none high h f g = omega (arith, f i refl)
boundary-le (some i) (some j) high h f g = omega (arith, f i refl, g j refl)

-- A window is not empty, ends in the text, and is no longer than the size.
pub window_end-bounds :
    (size start : ℕ) (s : Text)
    → 1 ≤ size
    → start < length s
    → (start < window_end size start s)
      × (window_end size start s ≤ length s)
      × (window_end size start s ≤ start + size)
unfolding window_end
window_end-bounds size start s h k =
    let high = min (length s) (start + size) in
    let low = start + size / 2 in
    let cut : boundary (rfind paragraph_break low high s) (rfind sentence_end low high s) ≤ high =
      boundary-le (rfind paragraph_break low high s) (rfind sentence_end low high s) high
        (omega arith) (λ i e. rfind-le paragraph_break low high s e)
        (λ i e. rfind-le sentence_end low high s e) in
    ground (arith, cut)
