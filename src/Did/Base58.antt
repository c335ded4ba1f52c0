-- ===== src/Did/Base58.antt =====
-- `_b58encode` and `_b58decode` of app/trust/identity.py.
pub mod RoundTrip
use oldman_agent.Prelude.{
  ℕ, zero, suc, ◌+◌, ◌*◌, Option, none, some, List, [], ◌∷◌, ◌++◌, map, eqb, if◌then◌else◌,
}
use oldman_agent.Narrative.Text.{Text, codes}
use oldman_agent.Did.Digits.{digits, value_from}

-- `_B58_ALPHABET`
abbrev pub alphabet : Text
alphabet = codes "123456789ABCDEFGHJKLMNPQRSTUVWXYZabcdefghijkmnopqrstuvwxyz"

-- The code point of "1", the digit 0
abbrev pub digit_one : ℕ
digit_one = 49

-- `alphabet[i]`
unfoldable pub char_at : Text → ℕ → ℕ
char_at [] i = digit_one
char_at (c ∷ cs) zero = c
char_at (c ∷ cs) (suc i) = char_at cs i

abbrev pub next_index : Option ℕ → Option ℕ
next_index none = none
next_index (some i) = some (suc i)

-- `alphabet.find(ch)`, where `none` is -1
unfoldable pub index_of : ℕ → Text → Option ℕ
index_of ch [] = none
index_of ch (c ∷ cs) = let later = next_index (index_of ch cs) in if eqb c ch then some 0 else later

-- `len(xs) - len(xs.lstrip(x))`
unfoldable pub leading : ℕ → List ℕ → ℕ
leading x [] = 0
leading x (y ∷ ys) = let rest = leading x ys in if eqb y x then suc rest else 0

-- `[x] * n`
unfoldable pub repeated : ℕ → ℕ → List ℕ
repeated zero x = []
repeated (suc n) x = x ∷ repeated n x

unfoldable pub b58encode : List ℕ → Text
b58encode bytes =
    repeated (leading 0 bytes) digit_one
    ++ map (char_at alphabet) (digits 58 (value_from 256 0 bytes))

abbrev pub shifted : ℕ → Option ℕ → Option ℕ
shifted n none = none
shifted n (some index) = some (n * 58 + index)

-- The `for` loop of `_b58decode`, where `none` is `InvalidDidError`.
unfoldable pub decode_number : Option ℕ → Text → Option ℕ
decode_number none s = none
decode_number (some n) [] = some n
decode_number (some n) (ch ∷ s) = decode_number (shifted n (index_of ch alphabet)) s

abbrev pub bytes_of : ℕ → Option ℕ → Option (List ℕ)
bytes_of pad none = none
bytes_of pad (some n) = some (repeated pad 0 ++ digits 256 n)

unfoldable pub b58decode : Text → Option (List ℕ)
b58decode s = bytes_of (leading digit_one s) (decode_number (some 0) s)
