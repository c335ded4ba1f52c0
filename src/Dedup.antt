-- ===== src/Dedup.antt =====
-- app/storage/dedup.py: the canonical hash, the tokens of a payload, and near-duplicates by Jaccard.
pub mod Laws
use oldman_agent.Prelude.{
  ℕ, String, Bool, true, false, not, ◌&&◌, ◌||◌, List, [], ◌∷◌, ◌++◌, length, if◌then◌else◌, ◌==◌,
}
use oldman_agent.Prelude.Dedup.{contains, dedup}
use oldman_agent.Floats.{Floats, at_most}
use oldman_agent.Json.{
  Json, null, bool, num, text, arr, obj, Items, nil, cons, Fields, end, field, TextServices,
}

-- `BLOCKLISTED_KINDS`
abbrev pub blocklisted_kinds : List String
blocklisted_kinds = "heartbeat" ∷ "ping" ∷ "noop" ∷ []

-- `_canon`: every text leaf is normalised, keys stay.
unfoldable mutual
  pub canon : TextServices → Json → Json
  canon u (text s) = text (u.nfc s)
  canon u (obj fs) = obj (canon_fields u fs)
  canon u (arr xs) = arr (canon_items u xs)
  canon u null = null
  canon u (bool b) = bool b
  canon u (num n) = num n

  pub canon_items : TextServices → Items → Items
  canon_items u nil = nil
  canon_items u (cons x xs) = cons (canon u x) (canon_items u xs)

  pub canon_fields : TextServices → Fields → Fields
  canon_fields u end = end
  canon_fields u (field k v fs) = field k (canon u v) (canon_fields u fs)

unfoldable pub payload_sha256 : TextServices → Json → String
payload_sha256 u payload = u.digest (canon u payload)

-- `_collect_strings`: the tokens of the text leaves, in the order of the payload.
unfoldable mutual
  pub collect_strings : TextServices → Json → List String
  collect_strings u (text s) = u.words (u.nfc s)
  collect_strings u (obj fs) = collect_fields u fs
  collect_strings u (arr xs) = collect_items u xs
  collect_strings u null = []
  collect_strings u (bool b) = []
  collect_strings u (num n) = []

  pub collect_items : TextServices → Items → List String
  collect_items u nil = []
  collect_items u (cons x xs) = collect_strings u x ++ collect_items u xs

  pub collect_fields : TextServices → Fields → List String
  collect_fields u end = []
  collect_fields u (field k v fs) = collect_strings u v ++ collect_fields u fs

-- `tokenize`: a set is a list in which no text stands twice.
unfoldable pub tokenize : TextServices → Json → List String
tokenize u payload = dedup (collect_strings u payload)

-- `a & b`
unfoldable pub intersection : List String → List String → List String
intersection [] b = []
intersection (x ∷ a) b = let rest = intersection a b in if contains x b then x ∷ rest else rest

-- `a | b`
unfoldable pub union : List String → List String → List String
union a b = dedup (a ++ b)

abbrev pub is_empty : List String → Bool
is_empty [] = true
is_empty (_ ∷ _) = false

module _ (F : Floats) where
  unfoldable pub jaccard : List String → List String → F.R
  jaccard a b =
      if is_empty a && is_empty b
      then F.num 1
      else if is_empty (union a b)
      then F.num 1
      else F.div (F.num (length (intersection a b))) (F.num (length (union a b)))

  -- `any(jaccard(new, prior) >= threshold for prior in recent)`
  unfoldable pub any_near : F.R → List String → List (List String) → Bool
  any_near threshold tokens [] = false
  any_near threshold tokens (prior ∷ rest) =
      at_most F threshold (jaccard tokens prior) || any_near threshold tokens rest

  unfoldable pub is_near_duplicate : F.R → List String → List (List String) → Bool
  is_near_duplicate threshold tokens recent =
      if is_empty tokens then false else any_near threshold tokens recent
