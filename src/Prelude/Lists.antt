-- ===== src/Prelude/Lists.antt =====
-- Lists measured by native numbers, filtered and searched by Boolean tests, and predicates on them.
use Prim.Native.Nat.{ℕ, zero, suc, ◌+◌, ◌-◌, ◌≤◌, ◌<◌, min}
use mathlib.Core.Path.{◌≡◌, refl, ap}
use mathlib.Core.Logic.{◌⊎◌, inl, inr}
use mathlib.Core.Bool.{Bool, true, false, ◌&&◌, ◌||◌}
use mathlib.Core.Option.{Option, none, some}
use mathlib.Core.List.{List, [], ◌∷◌, ◌++◌}
use native.Mathlib.Omega.{arith}
use universal_agent_memory.Prelude.Tests.{if◌then◌else◌, Bool-cases}

module _ {ℓ} {A : Type ℓ} where
  abbrev pub length : List A → ℕ
  length [] = 0
  length (x ∷ xs) = suc (length xs)

  abbrev pub take : ℕ → List A → List A
  take zero xs = []
  take (suc n) [] = []
  take (suc n) (x ∷ xs) = x ∷ take n xs

  abbrev pub drop : ℕ → List A → List A
  drop zero xs = xs
  drop (suc n) [] = []
  drop (suc n) (x ∷ xs) = drop n xs

  abbrev pub get_last? : List A → Option A
  get_last? [] = none
  get_last? (x ∷ []) = some x
  get_last? (x ∷ y ∷ xs) = get_last? (y ∷ xs)

  -- `[x for x in xs if p(x)]`
  abbrev pub filter : (A → Bool) → List A → List A
  filter p [] = []
  filter p (x ∷ xs) = let rest = filter p xs in if p x then x ∷ rest else rest

  -- `any(p(x) for x in xs)` and `all(p(x) for x in xs)`
  abbrev pub any : (A → Bool) → List A → Bool
  any p [] = false
  any p (x ∷ xs) = p x || any p xs

  abbrev pub all : (A → Bool) → List A → Bool
  all p [] = true
  all p (x ∷ xs) = p x && all p xs

  -- the first item that passes the test
  abbrev pub find? : (A → Bool) → List A → Option A
  find? p [] = none
  find? p (x ∷ xs) = let rest = find? p xs in if p x then some x else rest

  -- `sum(p(x) for x in xs)` of a Boolean test
  abbrev pub count : (A → Bool) → List A → ℕ
  count p [] = 0
  count p (x ∷ xs) = (if p x then 1 else 0) + count p xs

  abbrev pub sum_by : (A → ℕ) → List A → ℕ
  sum_by f [] = 0
  sum_by f (x ∷ xs) = f x + sum_by f xs

  abbrev pub All {κ} : (A → Type κ) → List A → Type κ
  All P [] = Unit
  All P (x ∷ xs) = P x × All P xs

-- Membership by recursion.
abbrev pub In : {A : Type 0} → A → List A → Type 0
In x [] = ⊥
In x (y ∷ ys) = (x ≡ y) ⊎ In x ys

module _ {ℓ} {A : Type ℓ} where
  pub length-append : (xs ys : List A) → length (xs ++ ys) ≡ length xs + length ys
  length-append [] ys = omega arith
  length-append (x ∷ xs) ys = omega (arith, length-append xs ys)

  pub length-take : (n : ℕ) (xs : List A) → length (take n xs) ≡ min n (length xs)
  length-take zero xs = omega arith
  length-take (suc n) [] = omega arith
  length-take (suc n) (x ∷ xs) = omega (arith, length-take n xs)

  pub length-drop : (n : ℕ) (xs : List A) → length (drop n xs) ≡ length xs - n
  length-drop zero xs = omega arith
  length-drop (suc n) [] = omega arith
  length-drop (suc n) (x ∷ xs) = omega (arith, length-drop n xs)

  pub take-append-drop : (n : ℕ) (xs : List A) → take n xs ++ drop n xs ≡ xs
  take-append-drop zero xs = refl
  take-append-drop (suc n) [] = refl
  take-append-drop (suc n) (x ∷ xs) = rw (take-append-drop n xs)

  pub count-le-length : (p : A → Bool) (xs : List A) → count p xs ≤ length xs
  count-le-length p [] = omega arith
  count-le-length p (x ∷ xs) = ground (arith, count-le-length p xs)

  pub length-filter-le : (p : A → Bool) (xs : List A) → length (filter p xs) ≤ length xs
  length-filter-le p [] = omega arith
  length-filter-le p (x ∷ xs) = ground (arith, length-filter-le p xs)

  pub filter-append :
      (p : A → Bool) (xs ys : List A) → filter p (xs ++ ys) ≡ filter p xs ++ filter p ys
  filter-append p [] ys = refl
  filter-append p (x ∷ xs) ys = elim (Bool-cases (p x)) [
    | inl e ↦ rw (e, filter-append p xs ys)
    | inr e ↦ rw (e, filter-append p xs ys)
  ]

  pub get_last?-snoc : (xs : List A) (x : A) → get_last? (xs ++ x ∷ []) ≡ some x
  get_last?-snoc [] x = refl
  get_last?-snoc (y ∷ []) x = refl
  get_last?-snoc (y ∷ z ∷ xs) x = get_last?-snoc (z ∷ xs) x

  pub get_last?-drop : (n : ℕ) (xs : List A) → n < length xs → get_last? (drop n xs) ≡ get_last? xs
  get_last?-drop zero xs h = refl
  get_last?-drop (suc n) [] h = absurd (omega arith)
  get_last?-drop (suc n) (x ∷ []) h = absurd (omega arith)
  get_last?-drop (suc n) (x ∷ y ∷ xs) h = get_last?-drop n (y ∷ xs) (omega arith)

  module _ {κ} (P : A → Type κ) where
    pub All-append : (xs ys : List A) → All P xs → All P ys → All P (xs ++ ys)
    All-append [] ys hx hy = hy
    All-append (x ∷ xs) ys hx hy = (hx.0, All-append xs ys hx.1 hy)

    pub All-filter : (p : A → Bool) (xs : List A) → All P xs → All P (filter p xs)
    All-filter p [] h = tt
    All-filter p (x ∷ xs) h = elim (Bool-cases (p x)) [
      | inl e ↦ rw e (h.0, All-filter p xs h.1)
      | inr e ↦ rw e (All-filter p xs h.1)
    ]

    pub All-drop : (n : ℕ) (xs : List A) → All P xs → All P (drop n xs)
    All-drop zero xs h = h
    All-drop (suc n) [] h = tt
    All-drop (suc n) (x ∷ xs) h = All-drop n xs h.1

    pub All-take : (n : ℕ) (xs : List A) → All P xs → All P (take n xs)
    All-take zero xs h = tt
    All-take (suc n) [] h = tt
    All-take (suc n) (x ∷ xs) h = (h.0, All-take n xs h.1)

  pub All-map {κ μ} :
      {P : A → Type κ} {Q : A → Type μ}
      → ((x : A) → P x → Q x)
      → (xs : List A) → All P xs
      → All Q xs
  All-map f [] h = tt
  All-map f (x ∷ xs) h = (f x h.0, All-map f xs h.1)

  -- What a filter keeps passes its test.
  pub All-filter_self : (p : A → Bool) (xs : List A) → All (λ x. p x ≡ true) (filter p xs)
  All-filter_self p [] = tt
  All-filter_self p (x ∷ xs) = elim (Bool-cases (p x)) [
    | inl e ↦ rw e (e, All-filter_self p xs)
    | inr e ↦ rw e (All-filter_self p xs)
  ]

  pub filter_of_All : (p : A → Bool) (xs : List A) → All (λ x. p x ≡ true) xs → filter p xs ≡ xs
  filter_of_All p [] h = refl
  filter_of_All p (x ∷ xs) h = rw (h.0, filter_of_All p xs h.1)

  pub filter_of_none : (p : A → Bool) (xs : List A) → All (λ x. p x ≡ false) xs → filter p xs ≡ []
  filter_of_none p [] h = refl
  filter_of_none p (x ∷ xs) h = rw (h.0, filter_of_none p xs h.1)

  -- A filter behind one that keeps all that it keeps.
  pub filter-filter :
      (p q : A → Bool) (xs : List A)
      → ((x : A) → p x ≡ true → q x ≡ true)
      → filter p (filter q xs) ≡ filter p xs
  filter-filter p q [] f = refl
  filter-filter p q (x ∷ xs) f = ground (arith, f x, filter-filter p q xs f)

  pub any-false→All : (p : A → Bool) (xs : List A) → any p xs ≡ false → All (λ x. p x ≡ false) xs
  any-false→All p [] h = tt
  any-false→All p (x ∷ xs) h = (ground arith, any-false→All p xs (ground arith))

  pub All→any-false : (p : A → Bool) (xs : List A) → All (λ x. p x ≡ false) xs → any p xs ≡ false
  All→any-false p [] h = refl
  All→any-false p (x ∷ xs) h = ground (arith, h.0, All→any-false p xs h.1)

  pub find?-none→All : (p : A → Bool) (xs : List A) → find? p xs ≡ none → All (λ x. p x ≡ false) xs
  find?-none→All p [] h = tt
  find?-none→All p (x ∷ xs) h = (ground arith, find?-none→All p xs (ground arith))

  pub find?-eq-some : (p : A → Bool) (xs : List A) {x : A} → find? p xs ≡ some x → p x ≡ true
  find?-eq-some p [] h = cc
  find?-eq-some p (y ∷ xs) {x} h = elim (Bool-cases (p y)) [
    | inl e ↦ ground arith
    | inr e ↦ find?-eq-some p xs (ground arith)
  ]

module _ {A : Type 0} where
  pub All-In {κ} : (P : A → Type κ) (xs : List A) (x : A) → All P xs → In x xs → P x
  All-In P [] x h m = absurd m
  All-In P (y ∷ ys) x h (inl e) = rw e h.0
  All-In P (y ∷ ys) x h (inr m) = All-In P ys x h.1 m

  pub In-step : {x y : A} (xs ys : List A) → (In x xs → In x ys) → In x (y ∷ xs) → In x (y ∷ ys)
  In-step xs ys f (inl e) = inl e
  In-step xs ys f (inr m) = inr (f m)

  pub In-append_left : (x : A) (xs ys : List A) → In x xs → In x (xs ++ ys)
  In-append_left x [] ys m = absurd m
  In-append_left x (y ∷ xs) ys (inl e) = inl e
  In-append_left x (y ∷ xs) ys (inr m) = inr (In-append_left x xs ys m)

  pub In-append_right : (x : A) (xs ys : List A) → In x ys → In x (xs ++ ys)
  In-append_right x [] ys m = m
  In-append_right x (y ∷ xs) ys m = inr (In-append_right x xs ys m)

  pub All-of_In {κ} : {P : A → Type κ} (xs : List A) → ((x : A) → In x xs → P x) → All P xs
  All-of_In [] f = tt
  All-of_In (x ∷ xs) f = (f x (inl refl), All-of_In xs (λ y m. f y (inr m)))

  pub In-filter : (p : A → Bool) (xs : List A) (x : A) → In x xs → p x ≡ true → In x (filter p xs)
  In-filter p [] x m h = m
  In-filter p (y ∷ ys) x (inl e) h = let q : p y ≡ true = rw (← e) h in rw q (inl e)
  In-filter p (y ∷ ys) x (inr m) h = elim (Bool-cases (p y)) [
    | inl q ↦ rw q (inr (In-filter p ys x m h))
    | inr q ↦ rw q (In-filter p ys x m h)
  ]

  pub In-of-filter : (p : A → Bool) (xs : List A) (x : A) → In x (filter p xs) → In x xs
  In-of-filter p [] x m = m
  In-of-filter p (y ∷ ys) x m = elim (Bool-cases (p y)) [
    | inl q ↦
        let n : In x (y ∷ filter p ys) = rw q at m in In-step _ _ (λ k. In-of-filter p ys x k) n
    | inr q ↦ let n : In x (filter p ys) = rw q at m in inr (In-of-filter p ys x n)
  ]

  pub any-of-In : (p : A → Bool) (xs : List A) (x : A) → In x xs → p x ≡ true → any p xs ≡ true
  any-of-In p [] x m h = absurd m
  any-of-In p (y ∷ ys) x (inl e) h = let q : p y ≡ true = rw (← e) h in rw q
  any-of-In p (y ∷ ys) x (inr m) h = ground (arith, any-of-In p ys x m h)

  pub find?-In : (p : A → Bool) (xs : List A) {x : A} → find? p xs ≡ some x → In x xs
  find?-In p [] h = absurd (cc)
  find?-In p (y ∷ xs) {x} h = elim (Bool-cases (p y)) [
    | inl e ↦ inl (ground arith)
    | inr e ↦ inr (find?-In p xs (ground arith))
  ]

  -- A sharper test counts fewer, if some item passes only the other one.
  pub count-le :
      (p q : A → Bool) (xs : List A) → ((x : A) → q x ≡ true → p x ≡ true) → count q xs ≤ count p xs
  count-le p q [] f = omega arith
  count-le p q (x ∷ xs) f = ground (arith, f x, count-le p q xs f)

  pub count-lt :
      (p q : A → Bool) (xs : List A) (x : A)
      → ((y : A) → q y ≡ true → p y ≡ true)
      → In x xs
      → p x ≡ true
      → q x ≡ false
      → count q xs < count p xs
  count-lt p q [] x f m hp hq = absurd m
  count-lt p q (y ∷ ys) x f (inl e) hp hq =
      let hp' : p y ≡ true = rw (← e) hp in
      let hq' : q y ≡ false = rw (← e) hq in rw (hp', hq') (omega (arith, count-le p q ys f))
  count-lt p q (y ∷ ys) x f (inr m) hp hq = ground (arith, f y, count-lt p q ys x f m hp hq)

take-empty {ℓ} : (A : Type ℓ) (k : ℕ) → take {A = A} k [] ≡ []
take-empty A zero = refl
take-empty A (suc k) = refl

drop-empty {ℓ} : (A : Type ℓ) (k : ℕ) → drop {A = A} k [] ≡ []
drop-empty A zero = refl
drop-empty A (suc k) = refl

pub take-drop-append {ℓ} :
    {A : Type ℓ} (n m : ℕ) (xs : List A) → take n xs ++ take m (drop n xs) ≡ take (n + m) xs
take-drop-append zero m xs = let e : 0 + m ≡ m = omega arith in rw e
take-drop-append (suc n) m [] =
    let e : suc n + m ≡ suc (n + m) = omega arith in rw e (take-empty _ m)
take-drop-append (suc n) m (x ∷ xs) =
    let e : suc n + m ≡ suc (n + m) = omega arith in rw e (ap (◌∷◌ x) (take-drop-append n m xs))

pub drop-drop {ℓ} : {A : Type ℓ} (n m : ℕ) (xs : List A) → drop m (drop n xs) ≡ drop (n + m) xs
drop-drop zero m xs = let e : 0 + m ≡ m = omega arith in rw e
drop-drop (suc n) m [] = let e : suc n + m ≡ suc (n + m) = omega arith in rw e (drop-empty _ m)
drop-drop (suc n) m (x ∷ xs) =
    let e : suc n + m ≡ suc (n + m) = omega arith in rw e (drop-drop n m xs)
