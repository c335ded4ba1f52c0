-- ===== src/Dedup/Laws.antt =====
-- The sets of app/storage/dedup.py: what Jaccard divides is a share of what it divides by.
use oldman_agent.Prelude.{
  ◌≤◌, String, ◌≡◌, false, List, [], ◌∷◌, ◌++◌, length, arith, if◌then◌else◌, eq_iff,
}
use oldman_agent.Prelude.Dedup.{contains, dedup, dedup_from, IsDistinct, dedup_lem}
use oldman_agent.Json.{Json, TextServices}
use oldman_agent.Dedup.{tokenize, intersection, union, collect_strings}

length-intersection-le : (a b : List String) → length (intersection a b) ≤ length a
unfolding intersection
length-intersection-le [] b = omega arith
length-intersection-le (x ∷ a) b = ground (arith, length-intersection-le a b)

-- Nothing of the list is among the seen.
abbrev Unseen : List String → List String → Type 0
Unseen seen [] = Unit
Unseen seen (x ∷ xs) = (contains x seen ≡ false) × Unseen seen xs

Unseen-cons :
    (x : String) (seen xs : List String)
    → contains x xs ≡ false
    → Unseen seen xs
    → Unseen (x ∷ seen) xs
unfolding contains
Unseen-cons x seen [] h k = tt
Unseen-cons x seen (y ∷ xs) h k =
    (ground (arith, h, k.0, eq_iff x y, eq_iff y x), Unseen-cons x seen xs (ground (arith, h)) k.1)

length-dedup_from-ge :
    (seen a b : List String)
    → IsDistinct a
    → Unseen seen a
    → length a ≤ length (dedup_from seen (a ++ b))
unfolding dedup_from
length-dedup_from-ge seen [] b d u = omega arith
length-dedup_from-ge seen (x ∷ a) b d u =
    ground (arith, u.0, length-dedup_from-ge (x ∷ seen) a b d.1 (Unseen-cons x seen a d.0 u.1))

Unseen-nil : (xs : List String) → Unseen [] xs
unfolding contains
Unseen-nil [] = tt
Unseen-nil (x ∷ xs) = (ground arith, Unseen-nil xs)

contains-intersection :
    (x : String) (a b : List String)
    → contains x (intersection a b) ≡ (if contains x a then contains x b else false)
unfolding intersection contains
contains-intersection x [] b = ground arith
contains-intersection x (y ∷ a) b = ground (arith, contains-intersection x a b, eq_iff y x)

-- The tokens of two payloads have at most as many in common as in all, and those in common are the
-- tokens of both.
pub tokenize-overlap :
    (u : TextServices) (p q : Json)
    → (length (intersection (tokenize u p) (tokenize u q))
        ≤ length (union (tokenize u p) (tokenize u q)))
      × ((x : String)
          → contains x (intersection (tokenize u p) (tokenize u q))
            ≡ (if contains x (tokenize u p) then contains x (tokenize u q) else false))
unfolding tokenize union dedup
tokenize-overlap u p q = (
  omega (
    arith,
    length-intersection-le (tokenize u p) (tokenize u q),
    length-dedup_from-ge [] (tokenize u p) (tokenize u q) (dedup_lem (collect_strings u p)).0
        (Unseen-nil (tokenize u p)),
  ),
  λ x. contains-intersection x (tokenize u p) (tokenize u q),
)
