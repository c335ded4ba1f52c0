-- ===== src/Did/Digits.antt =====
-- Digits of a number, the highest first: the loop of `_b58encode`, and `int.to_bytes` at the least
-- length. The fuel of the loop is the number itself.
use Prim.Native.Nat.{◌/◌, ◌%◌}
use mathlib.Core.Path.{subst}
use oldman_agent.Prelude.{
  ℕ, zero, suc, ◌+◌, ◌*◌, ◌≤◌, ◌<◌, ◌≡◌, ◌⊎◌, refl, sym, ap, ◌∙◌, List, [], ◌∷◌, ◌++◌, All, inl,
  inr, arith,
}

-- `while n: n, rem = divmod(n, base)`, on the remainders so far, the last one first
unfoldable pub digits_onto : ℕ → ℕ → ℕ → List ℕ → List ℕ
digits_onto base zero n rest = rest
digits_onto base (suc fuel) zero rest = rest
digits_onto base (suc fuel) (suc n) rest =
    digits_onto base fuel (suc n / base) (suc n % base ∷ rest)

unfoldable pub digits : ℕ → ℕ → List ℕ
digits base n = digits_onto base n n []

-- `n = n * base + digit`, over the digits; `int.from_bytes(data, "big")` for base 256
unfoldable pub value_from : ℕ → ℕ → List ℕ → ℕ
value_from base n [] = n
value_from base n (d ∷ ds) = value_from base (n * base + d) ds

-- What the proofs use of a base of two or more.
pub record IsBase (base : ℕ) : Type 0 where
  pub quotient_lt : (n : ℕ) → 1 ≤ n → n / base < n
  pub remainder_lt : (n : ℕ) → n % base < base
  pub whole : (n : ℕ) → (n / base) * base + n % base ≡ n
  pub quotient : (n d : ℕ) → d < base → (n * base + d) / base ≡ n
  pub remainder : (n d : ℕ) → d < base → (n * base + d) % base ≡ d
  pub small_quotient : (d : ℕ) → d < base → d / base ≡ 0
  pub small_remainder : (d : ℕ) → d < base → d % base ≡ d
  pub grows : (n d : ℕ) → 1 ≤ n → 1 ≤ n * base + d

pub IsBase-58 : IsBase 58
IsBase-58 = record {
  quotient_lt = λ n h. omega arith;
  remainder_lt = λ n. omega arith;
  whole = λ n. omega arith;
  quotient = λ n d h. omega arith;
  remainder = λ n d h. omega arith;
  small_quotient = λ d h. omega arith;
  small_remainder = λ d h. omega arith;
  grows = λ n d h. omega arith;
}

pub IsBase-256 : IsBase 256
IsBase-256 = record {
  quotient_lt = λ n h. omega arith;
  remainder_lt = λ n. omega arith;
  whole = λ n. omega arith;
  quotient = λ n d h. omega arith;
  remainder = λ n d h. omega arith;
  small_quotient = λ d h. omega arith;
  small_remainder = λ d h. omega arith;
  grows = λ n d h. omega arith;
}

-- The head of the digits, if there are any, is not 0.
abbrev pub IsLeading : List ℕ → Type 0
IsLeading [] = Unit
IsLeading (d ∷ ds) = 1 ≤ d

module _ (base : ℕ) (b : IsBase base) where
  digits_onto-zero : (fuel : ℕ) (rest : List ℕ) → digits_onto base fuel 0 rest ≡ rest
  unfolding digits_onto
  digits_onto-zero zero rest = refl
  digits_onto-zero (suc fuel) rest = refl

  digits_onto-suc :
      (fuel n : ℕ) (rest : List ℕ)
      → 1 ≤ n
      → digits_onto base (suc fuel) n rest ≡ digits_onto base fuel (n / base) (n % base ∷ rest)
  unfolding digits_onto
  digits_onto-suc fuel zero rest h = absurd (omega (arith, h))
  digits_onto-suc fuel (suc n) rest h = refl

  -- The loop comes to its end on every fuel of at least the number, with one result.
  pub digits_onto_enough :
      (fuel other n : ℕ) (rest : List ℕ)
      → n ≤ fuel
      → n ≤ other
      → digits_onto base fuel n rest ≡ digits_onto base other n rest
  digits_onto_enough fuel other zero rest h k =
      digits_onto-zero fuel rest ∙ sym (digits_onto-zero other rest)
  digits_onto_enough zero other (suc n) rest h k = absurd (omega (arith, h))
  digits_onto_enough (suc fuel) zero (suc n) rest h k = absurd (omega (arith, k))
  digits_onto_enough (suc fuel) (suc other) (suc n) rest h k =
      let smaller = b.quotient_lt (suc n) (omega arith) in
      digits_onto-suc fuel (suc n) rest (omega arith)
      ∙ (digits_onto_enough fuel other _ _ (omega (arith, h, smaller)) (omega (arith, k, smaller))
          ∙ sym (digits_onto-suc other (suc n) rest (omega arith)))

  -- One turn of the loop, on the fuel that the numbers give.
  pub digits_onto_turn :
      (n : ℕ) (rest : List ℕ)
      → 1 ≤ n
      → digits_onto base n n rest ≡ digits_onto base (n / base) (n / base) (n % base ∷ rest)
  digits_onto_turn zero rest h = absurd (omega (arith, h))
  digits_onto_turn (suc n) rest h =
      let smaller = b.quotient_lt (suc n) (omega arith) in
      digits_onto-suc n (suc n) rest h
      ∙ digits_onto_enough n _ _ _ (omega (arith, smaller)) (omega arith)

  value_from-digits_onto :
      (fuel n : ℕ) (rest : List ℕ)
      → n ≤ fuel
      → value_from base 0 (digits_onto base fuel n rest) ≡ value_from base n rest
  unfolding value_from
  value_from-digits_onto fuel zero rest h = ap (value_from base 0) (digits_onto-zero fuel rest)
  value_from-digits_onto zero (suc n) rest h = absurd (omega (arith, h))
  value_from-digits_onto (suc fuel) (suc n) rest h =
      let smaller = b.quotient_lt (suc n) (omega arith) in
      ap (value_from base 0) (digits_onto-suc fuel (suc n) rest (omega arith))
      ∙ (value_from-digits_onto fuel _ _ (omega (arith, h, smaller))
          ∙ ap (λ m. value_from base m rest) (b.whole (suc n)))

  -- The digits of a number have its value.
  pub value_from-digits : (n : ℕ) → value_from base 0 (digits base n) ≡ n
  unfolding digits value_from
  value_from-digits n = value_from-digits_onto n n [] (omega arith)

  digits_onto-value_from :
      (n : ℕ) (ds rest : List ℕ)
      → 1 ≤ n
      → All (λ d. d < base) ds
      → digits_onto base (value_from base n ds) (value_from base n ds) rest
        ≡ digits_onto base n n (ds ++ rest)
  unfolding value_from
  digits_onto-value_from n [] rest h k = refl
  digits_onto-value_from n (d ∷ ds) rest h k =
      digits_onto-value_from (n * base + d) ds rest (b.grows n d h) k.1
      ∙ (digits_onto_turn (n * base + d) (ds ++ rest) (b.grows n d h)
          ∙ rw (b.quotient n d k.0) (rw (b.remainder n d k.0) refl))

  -- Digits are found again in their value, if the first is not 0.
  pub digits-value_from :
      (d : ℕ) (ds : List ℕ)
      → 1 ≤ d
      → All (λ x. x < base) (d ∷ ds)
      → digits base (value_from base d ds) ≡ d ∷ ds
  unfolding digits
  digits-value_from d ds h k =
      digits_onto-value_from d ds [] h k.1 ∙ (digits_onto_turn d (ds ++ []) h ∙ first)
    where
      append-nil : (xs : List ℕ) → xs ++ [] ≡ xs
      append-nil [] = refl
      append-nil (x ∷ xs) = ap (λ l. x ∷ l) (append-nil xs)

      first : digits_onto base (d / base) (d / base) (d % base ∷ (ds ++ [])) ≡ d ∷ ds
      first =
          rw (b.small_quotient d k.0)
            (rw (b.small_remainder d k.0) (digits_onto-zero 0 _ ∙ ap (λ l. d ∷ l) (append-nil ds)))

  ℕ-cases : (m : ℕ) → (m ≡ 0) ⊎ (1 ≤ m)
  ℕ-cases zero = inl refl
  ℕ-cases (suc m) = inr (omega arith)

  digits_onto-IsLeading :
      (fuel n : ℕ) (rest : List ℕ) → n ≤ fuel → 1 ≤ n → IsLeading (digits_onto base fuel n rest)
  unfolding digits_onto
  digits_onto-IsLeading fuel zero rest h k = absurd (omega (arith, k))
  digits_onto-IsLeading zero (suc n) rest h k = absurd (omega (arith, h))
  digits_onto-IsLeading (suc fuel) (suc n) rest h k =
      let smaller = b.quotient_lt (suc n) (omega arith) in
      elim (ℕ-cases (suc n / base)) [
        | inl none_left ↦
            rw (none_left, digits_onto)
              (subst IsLeading (sym (digits_onto-zero fuel _)) (last none_left))
        | inr more ↦ digits_onto-IsLeading fuel (suc n / base) _ (omega (arith, h, smaller)) more
      ]
    where
      last : suc n / base ≡ 0 → 1 ≤ suc n % base
      last e = omega (arith, subst (λ q. q * base + suc n % base ≡ suc n) e (b.whole (suc n)))

  pub digits-IsLeading : (n : ℕ) → IsLeading (digits base n)
  unfolding digits digits_onto
  digits-IsLeading zero = tt
  digits-IsLeading (suc n) = digits_onto-IsLeading (suc n) (suc n) [] (omega arith) (omega arith)

  digits_onto_small :
      (fuel n : ℕ) (rest : List ℕ)
      → All (λ d. d < base) rest
      → All (λ d. d < base) (digits_onto base fuel n rest)
  unfolding digits_onto
  digits_onto_small zero n rest h = h
  digits_onto_small (suc fuel) zero rest h = h
  digits_onto_small (suc fuel) (suc n) rest h =
      digits_onto_small fuel _ _ (b.remainder_lt (suc n), h)

  pub digits_small : (n : ℕ) → All (λ d. d < base) (digits base n)
  unfolding digits
  digits_small n = digits_onto_small n n [] tt

-- The loop of `_b58encode` ends: on any fuel of at least the number it gives the same digits, and
-- their value is the number.
pub digits_onto_ends :
    (fuel n : ℕ)
    → n ≤ fuel
    → (digits_onto 58 fuel n [] ≡ digits 58 n) × (value_from 58 0 (digits 58 n) ≡ n)
unfolding digits
digits_onto_ends fuel n h =
    (digits_onto_enough 58 IsBase-58 fuel n n [] h (omega arith), value_from-digits 58 IsBase-58 n)
