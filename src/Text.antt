-- ===== src/Text.antt =====
-- Python's `str` as its code points, with `strip()` and the white space that it takes off.
use Prim.Native.Char.{code}
use universal_agent_memory.Prelude.{
  ℕ, String, ◌≡◌, refl, Bool, true, false, ◌&&◌, ◌||◌, List, [], ◌∷◌, arith, leb, eqb,
  if◌then◌else◌, all,
}

abbrev pub Text : Type 0
Text = List ℕ

abbrev pub text : String → Text
text String.[] = []
text (String.◌∷◌ c s) = code c ∷ text s

-- `str.isspace` of one character: what `str.strip()` removes.
unfoldable pub is_space : ℕ → Bool
is_space c =
    (leb 9 c && leb c 13)
    || (leb 28 c && leb c 32)
    || eqb c 0x85
    || eqb c 0xa0
    || eqb c 0x1680
    || (leb 0x2000 c && leb c 0x200a)
    || eqb c 0x2028
    || eqb c 0x2029
    || eqb c 0x202f
    || eqb c 0x205f
    || eqb c 0x3000

-- `s.lstrip()`
unfoldable pub lstrip : Text → Text
lstrip [] = []
lstrip (c ∷ s) = let rest = lstrip s in if is_space c then rest else c ∷ s

keep : ℕ → Text → Text
keep c [] = if is_space c then [] else c ∷ []
keep c (d ∷ r) = c ∷ d ∷ r

-- `s.rstrip()`: a character stays if it is no space or if something behind it stays.
unfoldable pub rstrip : Text → Text
unfolding keep
rstrip [] = []
rstrip (c ∷ s) = keep c (rstrip s)

-- `s.strip()`
unfoldable pub strip : Text → Text
unfolding lstrip rstrip
strip s = rstrip (lstrip s)

-- `not s.strip()`
unfoldable pub is_blank : Text → Bool
unfolding strip
is_blank s = elim (strip s) [ [] ↦ true | c ∷ r ↦ false ]

rstrip-all_space : (s : Text) → all is_space s ≡ true → rstrip s ≡ []
unfolding rstrip
rstrip-all_space [] h = refl
rstrip-all_space (c ∷ s) h = ground (arith, rstrip-all_space s)

rstrip-empty : (s : Text) → rstrip s ≡ [] → all is_space s ≡ true
unfolding rstrip
rstrip-empty [] h = refl
rstrip-empty (c ∷ s) h = ground (arith, rstrip-empty s)

lstrip-all_space : (s : Text) → all is_space s ≡ true → lstrip s ≡ []
unfolding lstrip
lstrip-all_space [] h = refl
lstrip-all_space (c ∷ s) h = ground (arith, lstrip-all_space s)

all_space-lstrip : (s : Text) → all is_space (lstrip s) ≡ true → all is_space s ≡ true
unfolding lstrip
all_space-lstrip [] h = refl
all_space-lstrip (c ∷ s) h = ground (arith, all_space-lstrip s)

-- A text is blank exactly when each of its characters is white space.
pub is_blank-eq-all : (s : Text) → is_blank s ≡ all is_space s
unfolding is_blank
is_blank-eq-all s = ground (
  arith,
  all_space-lstrip s,
  lstrip-all_space s,
  rstrip-empty (lstrip s),
  rstrip-all_space (lstrip s),
)
