-- ===== src/Prelude/Strings.antt =====
-- Texts as lists of code points: the standard library's string functions that the program uses.
use Prim.Native.Char.{code}
use Prim.Native.Nat.{ℕ}
use Prim.Native.String.{String}
use mathlib.Core.Path.{◌≡◌, refl}
use mathlib.Core.Logic.{◌↔◌, ◌≢◌}
use mathlib.Core.Bool.{Bool, true, false, ◌&&◌, ◌||◌}
use mathlib.Core.List.{List, [], ◌∷◌, ◌++◌, reverse}
use native.Mathlib.Omega.{arith}
use parqonaut.Prelude.Tests.{◌==◌, if◌then◌else◌}

abbrev pub Text : Type 0
Text = List ℕ

abbrev pub codes : String → Text
codes String.[] = []
codes (String.◌∷◌ c s) = code c ∷ codes s

unfoldable pub text_eq : Text → Text → Bool
text_eq [] [] = true
text_eq (a ∷ s) (b ∷ t) = a == b && text_eq s t
text_eq [] (b ∷ t) = false
text_eq (a ∷ s) [] = false

text_eq_sound : (s t : Text) → text_eq s t ≡ true → s ≡ t
unfolding text_eq
text_eq_sound [] [] h = refl
text_eq_sound (a ∷ s) (b ∷ t) h = ground (arith, text_eq_sound s t)
text_eq_sound [] (b ∷ t) h = cc
text_eq_sound (a ∷ s) [] h = cc

pub text_eq_refl : (s : Text) → text_eq s s ≡ true
unfolding text_eq
text_eq_refl [] = refl
text_eq_refl (a ∷ s) = ground (arith, text_eq_refl s)

pub text_eq_iff : (s t : Text) → (text_eq s t ≡ true) ↔ (s ≡ t)
text_eq_iff s t = (text_eq_sound s t, λ e. rw e (text_eq_refl t))

pub text_eq_ne : (s t : Text) → s ≢ t → text_eq s t ≡ false
text_eq_ne s t h = ground (arith, text_eq_iff s t)

-- `str::starts_with` and `str::contains`.
unfoldable pub starts_with : Text → Text → Bool
starts_with s [] = true
starts_with [] (p ∷ ps) = false
starts_with (c ∷ s) (p ∷ ps) = c == p && starts_with s ps

unfoldable pub contains : Text → Text → Bool
unfolding starts_with
contains [] p = starts_with [] p
contains (c ∷ s) p = starts_with (c ∷ s) p || contains s p

starts_with-contains : (s p : Text) → starts_with s p ≡ true → contains s p ≡ true
unfolding contains
starts_with-contains [] p h = h
starts_with-contains (c ∷ s) p h = rw h

-- A text that contains a needle contains the needle without its first character.
pub contains_tail : (s : Text) (c : ℕ) (p : Text) → contains s (c ∷ p) ≡ true → contains s p ≡ true
unfolding contains
contains_tail [] c p h = cc
contains_tail (d ∷ s) c p h = ground (arith, contains_tail s c p, starts_with-contains s p)

-- `trim_start_matches(c)`, `trim_end_matches(c)` and `trim_matches(c)` at a character.
unfoldable pub trim_start : ℕ → Text → Text
trim_start c [] = []
trim_start c (d ∷ s) = let rest = trim_start c s in if d == c then rest else d ∷ s

unfoldable pub trim_end : ℕ → Text → Text
unfolding trim_start
trim_end c s = reverse (trim_start c (reverse s))

abbrev pub is_empty : Text → Bool
is_empty [] = true
is_empty (c ∷ s) = false

-- `contains` of a list of texts.
abbrev pub listed : Text → List Text → Bool
listed key [] = false
listed key (k ∷ ks) = let rest = listed key ks in if text_eq k key then true else rest

pub listed-append :
    (j k : Text) (ks : List Text)
    → listed j (ks ++ (k ∷ [])) ≡ (if listed j ks then true else text_eq k j)
listed-append j k [] = ground arith
listed-append j k (i ∷ ks) = ground (arith, listed-append j k ks)

pub listed_differs :
    (k j : Text) (ks : List Text) → listed k ks ≡ false → listed j ks ≡ true → text_eq k j ≡ false
listed_differs k j [] gone here = cc
listed_differs k j (i ∷ ks) gone here =
    ground (arith, listed_differs k j ks, text_eq_iff i k, text_eq_iff i j, text_eq_iff k j)

-- No text stands twice.
abbrev pub Distinct : List Text → Type 0
Distinct [] = Unit
Distinct (k ∷ ks) = (listed k ks ≡ false) × Distinct ks

pub Distinct-append :
    (k : Text) (ks : List Text) → Distinct ks → listed k ks ≡ false → Distinct (ks ++ (k ∷ []))
Distinct-append k [] d h = (refl, tt)
Distinct-append k (i ∷ ks) (fresh, d) h = (
  ground (arith, listed-append i k ks, text_eq_iff i k, text_eq_iff k i),
  Distinct-append k ks d (ground arith),
)
