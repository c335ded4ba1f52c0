-- ===== src/Narrative/Citation/RoundTrip.antt =====
-- What is formatted as a marker is extracted again.
use oldman_agent.Prelude.{
  ℕ, zero, suc, ◌≡◌, refl, ap, Bool-cases, Option-cases, inl, inr, true, false, some, List, [], ◌∷◌,
  ◌++◌, arith, length, All,
}
use oldman_agent.Narrative.Text.{Text, mem_text, same_text, same_text_self, same_text-eq}
use oldman_agent.Narrative.Citation.{
  is_hex, lower_hex, short_id_of, format_marker, match_digits, match_marker, find_markers,
  extract_citations, distinct_from,
}

-- A digit of a stored id: hex, in lower case.
abbrev pub IsIdDigit : ℕ → Type 0
IsIdDigit c = (is_hex c ≡ true) × (lower_hex c ≡ c)

match_digits_lem :
    (n : ℕ) (ds rest : Text)
    → length ds ≡ n
    → All IsIdDigit ds
    → match_digits n (ds ++ b']' ∷ rest) ≡ some ds
unfolding match_digits
match_digits_lem zero [] rest e h = refl
match_digits_lem zero (d ∷ ds) rest e h = absurd (omega arith)
match_digits_lem (suc n) [] rest e h = absurd (omega arith)
match_digits_lem (suc n) (d ∷ ds) rest e h = ground (arith, match_digits_lem n ds rest, h.0)

append_assoc : (xs ys zs : Text) → (xs ++ ys) ++ zs ≡ xs ++ (ys ++ zs)
append_assoc [] ys zs = refl
append_assoc (x ∷ xs) ys zs = ap (λ s. x ∷ s) (append_assoc xs ys zs)

match_marker-format_marker :
    (id rest : Text)
    → length (short_id_of id) ≡ 8
    → All IsIdDigit (short_id_of id)
    → match_marker (format_marker id ++ rest) ≡ some (short_id_of id)
unfolding match_marker format_marker
match_marker-format_marker id rest e h =
    rw (append_assoc (short_id_of id) (b']' ∷ []) rest)
      (match_digits_lem 8 (short_id_of id) rest e h)

mem-distinct_from :
    (a : Text) (seen ms : List Text)
    → mem_text a seen ≡ false
    → mem_text a ms ≡ true
    → mem_text a (distinct_from seen ms) ≡ true
unfolding mem_text distinct_from
mem-distinct_from a seen [] h k = ground arith
mem-distinct_from a seen (m ∷ ms) h k = elim (Bool-cases (same_text m a)) [
  | inl same ↦ let e = same_text-eq m a same in rw e (ground (arith, h, same_text_self a))
  | inr other ↦
      ground (arith, mem-distinct_from a seen ms, mem-distinct_from a (m ∷ seen) ms, h, k, other)
]

mem-find_markers :
    (id pre rest : Text)
    → length (short_id_of id) ≡ 8
    → All IsIdDigit (short_id_of id)
    → mem_text (short_id_of id) (find_markers (pre ++ (format_marker id ++ rest))) ≡ true
unfolding find_markers mem_text format_marker
mem-find_markers id [] rest e h =
    rw (match_marker-format_marker id rest e h) (ground (arith, same_text_self (short_id_of id)))
mem-find_markers id (c ∷ pre) rest e h =
    elim (Option-cases (match_marker (c ∷ (pre ++ (format_marker id ++ rest))))) [
      | inl plain ↦ rw plain (mem-find_markers id pre rest e h)
      | inr (m, hit) ↦ rw hit (ground (arith, mem-find_markers id pre rest e h))
    ]

-- A marker formatted for an event, whose short id has eight hex digits in lower case, is found again
-- wherever it stands in a text: its short id is among the extracted citations.
pub extract_citations-format_marker :
    (id before after : Text)
    → length (short_id_of id) ≡ 8
    → All IsIdDigit (short_id_of id)
    → mem_text (short_id_of id) (extract_citations (before ++ (format_marker id ++ after))) ≡ true
unfolding extract_citations mem_text
extract_citations-format_marker id before after e h =
    mem-distinct_from (short_id_of id) [] _ refl (mem-find_markers id before after e h)
