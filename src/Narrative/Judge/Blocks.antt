-- ===== src/Narrative/Judge/Blocks.antt =====
-- Which block of a reply is read.
use oldman_agent.Prelude.{ℕ, ◌≡◌, refl, ◌∙◌, false, Option, none, some, [], ◌∷◌, ◌++◌, All}
use oldman_agent.Narrative.Text.{Text}
use oldman_agent.Narrative.Judge.{opening, closing, block_rest, block_at, find_block}

-- No braces.
abbrev pub IsPlain : Text → Type 0
IsPlain s = All (λ c. (opening c ≡ false) × (closing c ≡ false)) s

block_rest-plain :
    (body rest : Text) → IsPlain body → block_rest (body ++ b'}' ∷ rest) ≡ some (body ++ b'}' ∷ [])
unfolding block_rest
block_rest-plain [] rest h = refl
block_rest-plain (c ∷ body) rest h = rw h.0.0 (rw h.0.1 (rw (block_rest-plain body rest h.1) refl))

find_block-skips : (c : ℕ) (s : Text) → opening c ≡ false → find_block (c ∷ s) ≡ find_block s
unfolding find_block
find_block-skips c s h = skip (block_rest s)
  where
    skip : (rest : Option Text) → block_at c rest (find_block s) ≡ find_block s
    skip none = refl
    skip (some rest) = rw h refl

-- In a reply, the first opening brace, plain text and a closing brace are the block that is read,
-- whatever stands before and after.
pub find_block-first :
    (prose body rest : Text)
    → All (λ c. opening c ≡ false) prose
    → IsPlain body
    → find_block (prose ++ b'{' ∷ (body ++ b'}' ∷ rest)) ≡ some (b'{' ∷ (body ++ b'}' ∷ []))
unfolding find_block
find_block-first [] body rest h k = rw (block_rest-plain body rest k) refl
find_block-first (c ∷ prose) body rest h k =
    find_block-skips c _ h.0 ∙ find_block-first prose body rest h.1 k
