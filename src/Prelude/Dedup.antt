-- ===== src/Prelude/Dedup.antt =====
-- `dict.fromkeys(xs)` and loops with a `seen` set: the first occurrences, in order.
use mathlib.Core.Path.{◌≡◌}
use mathlib.Core.Bool.{Bool, false, ◌||◌}
use mathlib.Core.List.{List, [], ◌∷◌}
use Prim.Native.String.{String}
use native.Mathlib.Omega.{arith}
use text.Mathlib.Text.{◌==◌}
use text.Mathlib.TextEquality.{eq_iff}
use oldman_agent.Prelude.Tests.{if◌then◌else◌}

-- `x in xs`
unfoldable pub contains : String → List String → Bool
contains a [] = false
contains a (x ∷ xs) = (x == a) || contains a xs

unfoldable pub dedup_from : List String → List String → List String
dedup_from seen [] = []
dedup_from seen (x ∷ xs) =
    let fresh = x ∷ dedup_from (x ∷ seen) xs in
    let rest = dedup_from seen xs in if contains x seen then rest else fresh

unfoldable pub dedup : List String → List String
dedup xs = dedup_from [] xs

-- No text stands twice.
abbrev pub IsDistinct : List String → Type 0
IsDistinct [] = Unit
IsDistinct (x ∷ xs) = (contains x xs ≡ false) × IsDistinct xs

contains-dedup_from :
    (a : String) (seen xs : List String)
    → contains a (dedup_from seen xs) ≡ (if contains a seen then false else contains a xs)
unfolding contains dedup_from
contains-dedup_from a seen [] = ground arith
contains-dedup_from a seen (x ∷ xs) =
    ground (arith, contains-dedup_from a seen xs, contains-dedup_from a (x ∷ seen) xs, eq_iff x a)

dedup_from-IsDistinct : (seen xs : List String) → IsDistinct (dedup_from seen xs)
unfolding contains dedup_from
dedup_from-IsDistinct seen [] = tt
dedup_from-IsDistinct seen (x ∷ xs) = ground (
  arith,
  dedup_from-IsDistinct seen xs,
  dedup_from-IsDistinct (x ∷ seen) xs,
  contains-dedup_from x (x ∷ seen) xs,
  eq_iff x x,
)

-- The members are those of the list, each once.
pub dedup_lem :
    (xs : List String)
    → IsDistinct (dedup xs) × ((a : String) → contains a (dedup xs) ≡ contains a xs)
unfolding dedup contains
dedup_lem xs = (dedup_from-IsDistinct [] xs, λ a. contains-dedup_from a [] xs)
