-- ===== src/Narrative/Citation.antt =====
-- app/narrative/citation.py: the marker `[↑e<8 hex digits>]`.
pub mod RoundTrip
use oldman_agent.Prelude.{
  ℕ, zero, suc, ◌+◌, Bool, true, false, ◌&&◌, ◌||◌, Option, none, some, List, [], ◌∷◌, ◌++◌, eqb,
  leb, take, map, if◌then◌else◌,
}
use oldman_agent.Narrative.Text.{Text, mem_text}

-- `↑`
abbrev pub arrow : ℕ
arrow = 0x2191

-- `[0-9a-fA-F]`
unfoldable pub is_hex : ℕ → Bool
is_hex c = (leb b'0' c && leb c b'9') || ((leb b'a' c && leb c b'f') || (leb b'A' c && leb c b'F'))

-- `str.lower` on a hex digit
unfoldable pub lower_hex : ℕ → ℕ
lower_hex c = if leb b'A' c && leb c b'F' then c + 32 else c

-- `event_id[:SHORT_ID_LEN]`
abbrev pub short_id_of : Text → Text
short_id_of event_id = take 8 event_id

unfoldable pub format_marker : Text → Text
format_marker event_id = b'[' ∷ arrow ∷ b'e' ∷ (short_id_of event_id ++ b']' ∷ [])

-- `n` hex digits and the closing bracket
unfoldable pub match_digits : ℕ → Text → Option Text
match_digits zero [] = none
match_digits zero (c ∷ s) = if eqb c b']' then some [] else none
match_digits (suc n) [] = none
match_digits (suc n) (c ∷ s) =
    let rest = match_digits n s in
    if is_hex c then elim rest [ none ↦ none | some ds ↦ some (lower_hex c ∷ ds) ] else none

-- A marker at the front of a text, with its digits in lower case.
unfoldable pub match_marker : Text → Option Text
match_marker (a ∷ b ∷ c ∷ s) =
    if eqb a b'[' && (eqb b arrow && eqb c b'e') then match_digits 8 s else none
match_marker _ = none

abbrev prepend : Option Text → List Text → List Text
prepend none ms = ms
prepend (some m) ms = m ∷ ms

-- `finditer`: no two markers overlap, so every position is tried.
unfoldable pub find_markers : Text → List Text
find_markers [] = []
find_markers (c ∷ s) = prepend (match_marker (c ∷ s)) (find_markers s)

-- The loop with its `seen` set.
unfoldable pub distinct_from : List Text → List Text → List Text
distinct_from seen [] = []
distinct_from seen (m ∷ ms) =
    let fresh = m ∷ distinct_from (m ∷ seen) ms in
    let rest = distinct_from seen ms in if mem_text m seen then rest else fresh

unfoldable pub extract_citations : Text → List Text
extract_citations text = distinct_from [] (find_markers text)
