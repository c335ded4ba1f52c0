-- ===== src/Did/Base58/RoundTrip.antt =====
-- Decoding gives back the encoded bytes.
use oldman_agent.Prelude.{
  ℕ, zero, suc, ◌+◌, ◌*◌, ◌≤◌, ◌<◌, ◌≡◌, refl, ap, ◌∙◌, Bool, true, false, not, ◌&&◌, ◌||◌, Option,
  none, some, List, [], ◌∷◌, map, eqb, All, arith,
}
use oldman_agent.Narrative.Text.{Text}
use oldman_agent.Did.Digits.{
  digits_onto, IsLeading, IsBase-58, IsBase-256, digits, value_from, value_from-digits,
  digits-value_from, digits-IsLeading, digits_small,
}
use oldman_agent.Did.Base58.{
  alphabet, digit_one, char_at, index_of, leading, repeated, b58encode, shifted, decode_number,
  bytes_of, b58decode,
}

-- `i` is the index of the `i`-th letter.
abbrev is_found : Text → ℕ → Option ℕ → Bool
is_found letters i none = false
is_found letters i (some j) = eqb i j

abbrev all_below : (ℕ → Bool) → ℕ → Bool
all_below p zero = true
all_below p (suc n) = p n && all_below p n

all_below-at : (p : ℕ → Bool) (n i : ℕ) → all_below p n ≡ true → i < n → p i ≡ true
all_below-at p zero i h k = absurd (omega (arith, k))
all_below-at p (suc n) i h k = ground (arith, all_below-at p n i)

letters_found :
    all_below (λ i. is_found alphabet i (index_of (char_at alphabet i) alphabet)) 58 ≡ true
unfolding index_of char_at
letters_found = refl

found-is : (i : ℕ) (o : Option ℕ) → is_found alphabet i o ≡ true → o ≡ some i
found-is i none h = absurd (ground arith)
found-is i (some j) h = ap some (ground arith)

index_of-char_at : (i : ℕ) → i < 58 → index_of (char_at alphabet i) alphabet ≡ some i
index_of-char_at i h = found-is i _ (
    all_below-at (λ j. is_found alphabet j (index_of (char_at alphabet j) alphabet)) 58 i
      letters_found h)

others_differ : all_below (λ i. eqb i 0 || not (eqb (char_at alphabet i) digit_one)) 58 ≡ true
unfolding char_at
others_differ = refl

char_at-differs : (i : ℕ) → i < 58 → 1 ≤ i → eqb (char_at alphabet i) digit_one ≡ false
char_at-differs i h k = ground (
  arith,
  all_below-at (λ j. eqb j 0 || not (eqb (char_at alphabet j) digit_one)) 58 i others_differ h,
)

decode_number-chars :
    (n : ℕ) (ds : List ℕ)
    → All (λ d. d < 58) ds
    → decode_number (some n) (map (char_at alphabet) ds) ≡ some (value_from 58 n ds)
unfolding decode_number value_from
decode_number-chars n [] h = refl
decode_number-chars n (d ∷ ds) h =
    ap (λ o. decode_number (shifted n o) (map (char_at alphabet) ds)) (index_of-char_at d h.0)
    ∙ decode_number-chars (n * 58 + d) ds h.1

leading-chars :
    (ds : List ℕ)
    → All (λ d. d < 58) ds
    → IsLeading ds
    → leading digit_one (map (char_at alphabet) ds) ≡ 0
unfolding leading
leading-chars [] h k = refl
leading-chars (d ∷ ds) h k = rw (char_at-differs d h.0 k) refl

first_letter : index_of digit_one alphabet ≡ some 0
unfolding index_of
first_letter = refl

abbrev consed_zero : Option (List ℕ) → Option (List ℕ)
consed_zero none = none
consed_zero (some bytes) = some (0 ∷ bytes)

bytes_of-suc : (pad : ℕ) (n : Option ℕ) → bytes_of (suc pad) n ≡ consed_zero (bytes_of pad n)
unfolding repeated
bytes_of-suc pad none = refl
bytes_of-suc pad (some n) = refl

-- A leading "1" is a leading zero byte, on both ways.
b58decode-one : (s : Text) → b58decode (digit_one ∷ s) ≡ consed_zero (b58decode s)
unfolding b58decode leading decode_number
b58decode-one s =
    ap (λ o. bytes_of (suc (leading digit_one s)) (decode_number (shifted 0 o) s)) first_letter
    ∙ bytes_of-suc (leading digit_one s) (decode_number (some 0) s)

b58encode-zero : (bytes : List ℕ) → b58encode (0 ∷ bytes) ≡ digit_one ∷ b58encode bytes
unfolding b58encode leading repeated value_from
b58encode-zero bytes = refl

b58decode-number :
    (d : ℕ) (ds : List ℕ)
    → 1 ≤ d
    → All (λ x. x < 256) (d ∷ ds)
    → b58decode (map (char_at alphabet) (digits 58 (value_from 256 d ds))) ≡ some (d ∷ ds)
unfolding b58decode repeated
b58decode-number d ds h k =
    let n = value_from 256 d ds in
    let small = digits_small 58 IsBase-58 n in
    rw (leading-chars (digits 58 n) small (digits-IsLeading 58 IsBase-58 n)) (
      rw (decode_number-chars 0 (digits 58 n) small) (
        rw (value_from-digits 58 IsBase-58 n)
          (ap some (digits-value_from 256 IsBase-256 d ds h k))))

b58encode-suc :
    (d : ℕ) (bytes : List ℕ)
    → b58encode (suc d ∷ bytes) ≡ map (char_at alphabet) (digits 58 (value_from 256 (suc d) bytes))
unfolding b58encode leading repeated value_from
b58encode-suc d bytes = rw (positive d) (rw (plain d) refl)
  where
    positive : (n : ℕ) → eqb (suc n) 0 ≡ false
    positive n = ground arith

    plain : (n : ℕ) → 0 + suc n ≡ suc n
    plain n = omega arith

b58decode-nil : b58decode (b58encode []) ≡ some []
unfolding b58encode b58decode leading repeated decode_number value_from digits digits_onto
b58decode-nil = refl

-- Decoding the encoding of bytes, numbers below 256, gives them back, leading zeros included.
pub b58decode-b58encode :
    (bytes : List ℕ) → All (λ x. x < 256) bytes → b58decode (b58encode bytes) ≡ some bytes
b58decode-b58encode [] h = b58decode-nil
b58decode-b58encode (zero ∷ bytes) h =
    ap b58decode (b58encode-zero bytes)
    ∙ (b58decode-one (b58encode bytes) ∙ ap consed_zero (b58decode-b58encode bytes h.1))
b58decode-b58encode (suc d ∷ bytes) h =
    ap b58decode (b58encode-suc d bytes) ∙ b58decode-number (suc d) bytes (omega arith) h
