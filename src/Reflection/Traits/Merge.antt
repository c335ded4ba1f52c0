-- ===== src/Reflection/Traits/Merge.antt =====
-- Merged traits: what they hold, and that the same reflection merged once more changes nothing.
use oldman_agent.Prelude.{
  ℕ, zero, suc, String, ◌≡◌, refl, sym, ap, ◌∙◌, true, false, ◌||◌, Option, some, List, [], ◌∷◌,
  ◌++◌, take, arith, ◌==◌, eq_iff, All, Bool-cases, inl, inr,
}
use oldman_agent.Prelude.Dedup.{contains, dedup, dedup_from, dedup_lem}
use oldman_agent.Archive.{Traits}
use oldman_agent.Reflection.Traits.{evidence_cap, merge_traits, descriptors_of, evidence_of}

-- No text of the list was seen before it.
abbrev IsNew : List String → List String → Type 0
IsNew seen [] = Unit
IsNew seen (x ∷ xs) = (contains x seen ≡ false) × IsNew (x ∷ seen) xs

dedup_from-IsNew : (seen xs : List String) → IsNew seen (dedup_from seen xs)
unfolding dedup_from
dedup_from-IsNew seen [] = tt
dedup_from-IsNew seen (x ∷ xs) =
    ground (arith, dedup_from-IsNew seen xs, dedup_from-IsNew (x ∷ seen) xs)

take-IsNew : (k : ℕ) (seen xs : List String) → IsNew seen xs → IsNew seen (take k xs)
take-IsNew zero seen xs h = tt
take-IsNew (suc k) seen [] h = tt
take-IsNew (suc k) seen (x ∷ xs) h = (h.0, take-IsNew k (x ∷ seen) xs h.1)

dedup_from-new : (seen xs : List String) → IsNew seen xs → dedup_from seen xs ≡ xs
unfolding dedup_from
dedup_from-new seen [] h = refl
dedup_from-new seen (x ∷ xs) h = rw h.0 (rw (dedup_from-new (x ∷ seen) xs h.1) refl)

dedup_from-seen :
    (seen xs : List String) → All (λ x. contains x seen ≡ true) xs → dedup_from seen xs ≡ []
unfolding dedup_from
dedup_from-seen seen [] h = refl
dedup_from-seen seen (x ∷ xs) h = rw h.0 (dedup_from-seen seen xs h.1)

-- The texts seen matter only as a set.
dedup_from-same :
    (seen other xs : List String)
    → ((a : String) → contains a seen ≡ contains a other)
    → dedup_from seen xs ≡ dedup_from other xs
unfolding dedup_from contains
dedup_from-same seen other [] h = refl
dedup_from-same seen other (x ∷ xs) h =
    let fresh = dedup_from-same (x ∷ seen) (x ∷ other) xs (λ a. ap (λ b. (x == a) || b) (h a)) in
    let rest = dedup_from-same seen other xs h in rw (h x) (rw fresh (rw rest refl))

within :
    (xs seen : List String)
    → ((a : String) → contains a xs ≡ true → contains a seen ≡ true)
    → All (λ x. contains x seen ≡ true) xs
unfolding contains
within [] seen h = tt
within (x ∷ xs) seen h =
    (h x (ground (arith, eq_iff x x)), within xs seen (λ a k. h a (ground (arith, k))))

-- The second list is searched with the first one seen.
dedup_from-append :
    (seen other xs ys : List String)
    → ((a : String) → contains a other ≡ (contains a seen || contains a xs))
    → dedup_from seen (xs ++ ys) ≡ dedup_from seen xs ++ dedup_from other ys
unfolding dedup_from contains
dedup_from-append seen other [] ys h = dedup_from-same seen other ys (λ a. ground (arith, h a))
dedup_from-append seen other (x ∷ xs) ys h = elim (Bool-cases (contains x seen)) [
  | inl old ↦
      rw old (dedup_from-append seen other xs ys (λ a. ground (arith, h a, old, eq_iff x a)))
  | inr fresh ↦
      rw fresh
        (ap (λ l. x ∷ l) (dedup_from-append (x ∷ seen) other xs ys (λ a. ground (arith, h a))))
]

append-nil : (xs : List String) → xs ++ [] ≡ xs
append-nil [] = refl
append-nil (x ∷ xs) = ap (λ l. x ∷ l) (append-nil xs)

take_twice : (k : ℕ) (xs : List String) → take k (take k xs) ≡ take k xs
take_twice zero xs = refl
take_twice (suc k) [] = refl
take_twice (suc k) (x ∷ xs) = ap (λ l. x ∷ l) (take_twice k xs)

contains-append :
    (a : String) (xs ys : List String) → contains a (xs ++ ys) ≡ (contains a xs || contains a ys)
unfolding contains
contains-append a [] ys = refl
contains-append a (x ∷ xs) ys = ground (arith, contains-append a xs ys)

descriptors_again : (old new : List String) → dedup (dedup (old ++ new) ++ new) ≡ dedup (old ++ new)
unfolding dedup contains
descriptors_again old new =
    let first = dedup (old ++ new) in
    let known =
      within new first
        (λ a k. (dedup_lem (old ++ new)).1 a ∙ ground (arith, contains-append a old new)) in
    dedup_from-append [] first first new (λ a. refl)
    ∙ rw (dedup_from-seen first new known)
        (append-nil _ ∙ dedup_from-new [] first (dedup_from-IsNew [] _))

-- A capped list whose head was all seen, taken in again.
capped_again :
    (k : ℕ) (seen heads rest : List String)
    → All (λ x. contains x seen ≡ true) heads
    → IsNew seen rest
    → take k (heads ++ dedup_from seen (take k (heads ++ rest))) ≡ take k (heads ++ rest)
unfolding dedup_from
capped_again k seen [] rest h new =
    rw (dedup_from-new seen (take k rest) (take-IsNew k seen rest new)) (take_twice k rest)
capped_again zero seen (x ∷ heads) rest h new = refl
capped_again (suc k) seen (x ∷ heads) rest h new =
    rw h.0 (ap (λ l. x ∷ l) (capped_again k seen heads rest h.1 new))

dedup-append : (xs ys : List String) → dedup (xs ++ ys) ≡ dedup xs ++ dedup_from xs ys
unfolding dedup contains
dedup-append xs ys = dedup_from-append [] xs xs ys (λ a. refl)

evidence_again :
    (old new : List String)
    → take evidence_cap (dedup (new ++ take evidence_cap (dedup (new ++ old))))
      ≡ take evidence_cap (dedup (new ++ old))
evidence_again old new =
    let heads = within (dedup new) new (λ a k. sym ((dedup_lem new).1 a) ∙ k) in
    rw (dedup-append new old) (
      dedup-append-take new (dedup new ++ dedup_from new old)
      ∙ capped_again evidence_cap new (dedup new) (dedup_from new old) heads
          (dedup_from-IsNew new old))
  where
    dedup-append-take :
        (xs ys : List String)
        → take evidence_cap (dedup (xs ++ take evidence_cap ys))
          ≡ take evidence_cap (dedup xs ++ dedup_from xs (take evidence_cap ys))
    dedup-append-take xs ys = ap (take evidence_cap) (dedup-append xs (take evidence_cap ys))

-- Merging a reflection into traits that it was just merged into changes nothing.
pub merge_traits_again :
    (existing : Option Traits) (new : Traits)
    → merge_traits (some (merge_traits existing new)) new ≡ merge_traits existing new
unfolding merge_traits
merge_traits_again existing new =
    rw (descriptors_again (descriptors_of existing) new.descriptors)
      (rw (evidence_again (evidence_of existing) new.evidence_event_ids) refl)
