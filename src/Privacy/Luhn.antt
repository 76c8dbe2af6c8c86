-- ===== src/Privacy/Luhn.antt =====
-- Proofs on the checksum `_luhn_valid` of services/privacy.py.
use universal_agent_memory.Prelude.{
  ℕ, suc, ◌+◌, ◌%◌, ◌≤◌, ◌≡◌, ◌≢◌, sym, ◌∙◌, true, false, List, [], ◌∷◌, ◌++◌, arith, nat_eq,
  length, length-append,
}
use universal_agent_memory.Privacy.{luhn_digit, luhn_sum, luhn_digits_valid}

luhn_sum-append :
    (parity index : ℕ) (xs ys : List ℕ)
    → luhn_sum parity index (xs ++ ys)
      ≡ luhn_sum parity index xs + luhn_sum parity (index + length xs) ys
unfolding luhn_sum
luhn_sum-append parity index [] ys = let e : index + 0 ≡ index = omega arith in rw e (omega arith)
luhn_sum-append parity index (x ∷ xs) ys =
    let e : index + 1 + length xs ≡ index + suc (length xs) = omega arith in
    let ih = luhn_sum-append parity (index + 1) xs ys in rw (ih, e) (omega arith)

-- Two digits' parts are never the same but for a multiple of ten.
luhn_digit-differs :
    (parity index d e rest : ℕ)
    → d ≤ 9
    → e ≤ 9
    → d ≢ e
    → (rest + luhn_digit parity index d) % 10 ≡ 0
    → (rest + luhn_digit parity index e) % 10 ≢ 0
unfolding luhn_digit
luhn_digit-differs parity index d e rest hd he ne h = ground arith

luhn_sum-at :
    (parity : ℕ) (xs ys : List ℕ) (d : ℕ)
    → luhn_sum parity 0 (xs ++ (d ∷ ys))
      ≡ luhn_sum parity 0 xs
        + luhn_sum parity (0 + length xs + 1) ys
        + luhn_digit parity (0 + length xs) d
luhn_sum-at parity xs ys d = luhn_sum-append parity 0 xs (d ∷ ys) ∙ (unfold luhn_sum in omega arith)

same_length : (xs ys : List ℕ) (d e : ℕ) → length (xs ++ (d ∷ ys)) ≡ length (xs ++ (e ∷ ys))
same_length xs ys d e = length-append xs (d ∷ ys) ∙ sym (length-append xs (e ∷ ys))

-- A valid number in which one digit is mistaken for another is not valid.
pub luhn_single_error :
    (xs ys : List ℕ) (d e : ℕ)
    → d ≤ 9
    → e ≤ 9
    → d ≢ e
    → luhn_digits_valid (xs ++ (d ∷ ys)) ≡ true
    → luhn_digits_valid (xs ++ (e ∷ ys)) ≡ false
unfolding luhn_digits_valid
luhn_single_error xs ys d e hd he ne h =
    let parity = length (xs ++ (d ∷ ys)) % 2 in
    let rest = luhn_sum parity 0 xs + luhn_sum parity (0 + length xs + 1) ys in
    rw (same_length xs ys e d) (
      ground (
        arith,
        h,
        luhn_sum-at parity xs ys d,
        luhn_sum-at parity xs ys e,
        luhn_digit-differs parity (0 + length xs) d e rest hd he ne,
      ))
