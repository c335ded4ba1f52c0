-- ===== src/Narrative/Text.antt =====
-- Texts as lists of code points, which the narrative code walks.
use Prim.Native.Char.{code}
use Prim.Native.String.{String}
use oldman_agent.Prelude.{ℕ, ◌≡◌, refl, Bool, true, false, ◌&&◌, ◌||◌, List, [], ◌∷◌, eqb, arith}

abbrev pub Text : Type 0
Text = List ℕ

-- The code points of a native text.
abbrev pub codes : String → Text
codes String.[] = []
codes (String.◌∷◌ c s) = code c ∷ codes s

unfoldable pub same_text : Text → Text → Bool
same_text [] [] = true
same_text (a ∷ x) (b ∷ y) = eqb a b && same_text x y
same_text _ _ = false

-- `x in xs`
unfoldable pub mem_text : Text → List Text → Bool
mem_text a [] = false
mem_text a (x ∷ xs) = same_text x a || mem_text a xs

-- `text.startswith(prefix)`
unfoldable pub starts : Text → Text → Bool
starts [] s = true
starts (a ∷ p) [] = false
starts (a ∷ p) (b ∷ s) = eqb a b && starts p s

-- `part in text`
unfoldable pub occurs : Text → Text → Bool
occurs p [] = starts p []
occurs p (b ∷ s) = starts p (b ∷ s) || occurs p s

pub same_text-eq : (x y : Text) → same_text x y ≡ true → x ≡ y
unfolding same_text
same_text-eq [] [] h = refl
same_text-eq (a ∷ x) (b ∷ y) h = ground (arith, same_text-eq x y)
same_text-eq [] (b ∷ y) h = ground arith
same_text-eq (a ∷ x) [] h = ground arith

pub same_text_self : (x : Text) → same_text x x ≡ true
unfolding same_text
same_text_self [] = refl
same_text_self (a ∷ x) = ground (arith, same_text_self x)
