-- ===== src/Domain/Errors.antt =====
-- The exceptions that the program raises, and results that are a value or an exception.
use universal_agent_memory.Prelude.{ℕ, String, ◌≡◌, refl, ◌⊎◌, inl, inr, Option, Bool, true, false}
use universal_agent_memory.Text.{Text}

pub data Error : Type 0 where
  value_error : String → Error
  key_error : String → Error
  runtime_error : String → Error
  -- domain/models.py: the item, the expected revision and the actual one
  memory_revision_conflict : ℕ → ℕ → ℕ → Error
  -- domain/checkpoint.py: the thread, the expected revision and the actual one
  stale_revision : ℕ → ℕ → Option ℕ → Error
  -- an exception of a dependency, by the name of its type
  dependency_error : Text → Error

pub data Result {ℓ} (A : Type ℓ) : Type ℓ where
  ok : A → Result A
  err : Error → Result A

-- `if b: raise e`
abbrev pub raise_if : Bool → Error → Result (Unit {0})
raise_if true e = err e
raise_if false e = ok tt

-- A statement and what follows it, without a value and with one.
infixl 5 ◌>>◌ ◌>>=◌
abbrev pub ◌>>◌ {ℓ} : {A : Type ℓ} → Result (Unit {0}) → Result A → Result A
err e >> rest = err e
ok u >> rest = rest

abbrev pub ◌>>=◌ {ℓ κ} : {A : Type ℓ} {B : Type κ} → Result A → (A → Result B) → Result B
err e >>= rest = err e
ok a >>= rest = rest a

-- A check that was passed.
pub raise_if-eq-ok {ℓ} :
    {A : Type ℓ} (b : Bool) (e : Error) (rest : Result A) {a : A}
    → (raise_if b e >> rest) ≡ ok a
    → (b ≡ false) × (rest ≡ ok a)
raise_if-eq-ok true e rest h = cc
raise_if-eq-ok false e rest h = (refl, h)

pub Result-cases {ℓ} :
    {A : Type ℓ} (r : Result A) → ((e : Error) × (r ≡ err e)) ⊎ ((a : A) × (r ≡ ok a))
Result-cases (err e) = inl (e, refl)
Result-cases (ok a) = inr (a, refl)
