-- ===== src/Prelude/Int.antt =====
-- Signed numbers, as far as the program's range checks need them.
use Prim.Native.Nat.{ℕ}
use mathlib.Core.Path.{◌≡◌, refl}
use mathlib.Core.Bool.{Bool, true, false}
use native.Mathlib.Omega.{arith}
use universal_agent_memory.Prelude.Tests.{leb, if◌then◌else◌}

-- `negsuc n` is -(n + 1).
pub data ℤ : Type 0 where
  pos : ℕ → ℤ
  negsuc : ℕ → ℤ

-- A float of the program, in millionths.
abbrev pub Score : Type 0
Score = ℤ

-- `0.0 <= x <= 1.0`
abbrev pub in_unit : Score → Bool
in_unit (pos n) = leb n 1000000
in_unit (negsuc n) = false

-- `x <= y`
abbrev pub score_leb : Score → Score → Bool
score_leb (pos m) (pos n) = leb m n
score_leb (pos m) (negsuc n) = false
score_leb (negsuc m) (pos n) = true
score_leb (negsuc m) (negsuc n) = leb n m

-- `max(x, y)` and `min(x, y)`
abbrev pub score_max : Score → Score → Score
score_max x y = if score_leb x y then y else x

abbrev pub score_min : Score → Score → Score
score_min x y = if score_leb x y then x else y

pub score_leb-total : (x y : Score) → score_leb x y ≡ false → score_leb y x ≡ true
score_leb-total (pos m) (pos n) h = ground arith
score_leb-total (pos m) (negsuc n) h = refl
score_leb-total (negsuc m) (pos n) h = ground arith
score_leb-total (negsuc m) (negsuc n) h = ground arith

pub score_leb_refl : (x : Score) → score_leb x x ≡ true
score_leb_refl (pos m) = ground arith
score_leb_refl (negsuc m) = ground arith

pub score_leb_trans :
    (x y z : Score) → score_leb x y ≡ true → score_leb y z ≡ true → score_leb x z ≡ true
score_leb_trans (pos m) (pos n) (pos k) h j = ground arith
score_leb_trans (pos m) (pos n) (negsuc k) h j = ground arith
score_leb_trans (pos m) (negsuc n) z h j = ground arith
score_leb_trans (negsuc m) y (pos k) h j = refl
score_leb_trans (negsuc m) (pos n) (negsuc k) h j = ground arith
score_leb_trans (negsuc m) (negsuc n) (negsuc k) h j = ground arith

pub score_min-le : (x y : Score) → score_leb (score_min x y) x ≡ true
score_min-le x y = ground (arith, score_leb_refl x, score_leb-total x y)
