-- ===== src/Narrative/Sentences.antt =====
-- app/narrative/sentences.py: the sentences of a text that hold a marker.
use oldman_agent.Prelude.{
  ℕ, Bool, true, false, ◌&&◌, ◌||◌, Option, none, some, List, [], ◌∷◌, ◌++◌, eqb, leb,
  if◌then◌else◌,
}
use oldman_agent.Narrative.Text.{Text, occurs}

-- `[.!?]`
unfoldable pub ends_sentence : ℕ → Bool
ends_sentence c = eqb c b'.' || (eqb c b'!' || eqb c b'?')

-- `\s`, of the ASCII blanks
unfoldable pub is_blank : ℕ → Bool
is_blank c = eqb c b' ' || (leb 9 c && leb c 13)

-- Adds a character to the first sentence.
abbrev pub push_char : ℕ → List Text → List Text
push_char c [] = (c ∷ []) ∷ []
push_char c (s ∷ ss) = (c ∷ s) ∷ ss

-- `split` at blanks behind a stop: `cut` holds right after one, in a run of blanks that is dropped.
unfoldable pub split_sentences : Bool → Bool → Text → List Text
split_sentences stop cut [] = [] ∷ []
split_sentences stop cut (c ∷ s) =
    let dropped = split_sentences false true s in
    let kept = push_char c (split_sentences (ends_sentence c) false s) in
    if is_blank c && cut then dropped else if is_blank c && stop then [] ∷ dropped else kept

unfoldable pub holding : Text → List Text → List Text
holding marker [] = []
holding marker (s ∷ ss) = let rest = holding marker ss in if occurs marker s then s ∷ rest else rest

-- `" ".join`
unfoldable pub join_blank : List Text → Text
join_blank [] = []
join_blank (s ∷ []) = s
join_blank (s ∷ t ∷ ss) = s ++ (b' ' ∷ join_blank (t ∷ ss))

abbrev joined_or : Text → List Text → Text
joined_or text [] = text
joined_or text (s ∷ ss) = join_blank (s ∷ ss)

unfoldable pub extract_sentence_for_marker : Text → Text → Option Text
extract_sentence_for_marker text marker =
    if occurs marker text
    then some (joined_or text (holding marker (split_sentences false false text)))
    else none
