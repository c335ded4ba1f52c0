-- ===== src/Narrative/Judge/Refusals.antt =====
-- When the judge rejects a citation.
use oldman_agent.Prelude.{
  ◌⊎◌, inl, inr, Bool-cases, Option-cases, eq_iff, [], ◌∙◌, String, ◌≡◌, ◌≢◌, ◌↔◌, refl, Bool, true,
  false, Option, none, some, arith,
}
use oldman_agent.Json.{Json, Fields, null, bool, num, text, arr, obj, nil, cons, end, field}
use oldman_agent.Narrative.Text.{Text, codes, same_text, same_text-eq, same_text_self}
use oldman_agent.Narrative.Validator.{ungrounded}
use oldman_agent.Narrative.Judge.{
  JsonTexts, reply_of, JudgeVerdict, ungrounded_for, says_grounded, reason_text, said, strip_fences,
  find_block, loaded_dict, loaded, or_block, parse_judge_output, replied, judge_grounding,
  is_failure, verdict_on, judge,
}
use oldman_agent.Task.Filters.{field_of}

-- What Python takes for false: nothing, `None`, `False`, 0, and what is empty.
abbrev pub IsFalsy : Option Json → Type 0
IsFalsy none = Unit
IsFalsy (some null) = Unit
IsFalsy (some (bool b)) = b ≡ false
IsFalsy (some (num n)) = n ≡ 0
IsFalsy (some (text s)) = s ≡ ""
IsFalsy (some (arr nil)) = Unit
IsFalsy (some (arr (cons v vs))) = ⊥
IsFalsy (some (obj end)) = Unit
IsFalsy (some (obj (field k v fs))) = ⊥

-- None of the two words by which the judge tells its own failures.
abbrev pub IsPlainReason : Text → Type 0
IsPlainReason r = (r ≢ codes "provider_error") × (r ≢ codes "parse_error")

-- The reason of a reply, as it is compared: empty where there is none, a list or a dictionary as JSON.
abbrev pub HasPlainReason : JsonTexts → Option Json → Type 0
HasPlainReason j none = IsPlainReason []
HasPlainReason j (some (arr vs)) = IsPlainReason (j.dumps (arr vs))
HasPlainReason j (some (obj fs)) = IsPlainReason (j.dumps (obj fs))
HasPlainReason j (some null) = IsPlainReason (j.str null)
HasPlainReason j (some (bool b)) = IsPlainReason (j.str (bool b))
HasPlainReason j (some (num n)) = IsPlainReason (j.str (num n))
HasPlainReason j (some (text s)) = IsPlainReason (j.str (text s))

-- The dictionary that a text gives: the whole of it is one, or else its first block.
abbrev pub Reads : JsonTexts → Text → Fields → Type 0
Reads j s fs =
    (j.loads s ≡ some (obj fs))
    ⊎ (((gs : Fields) → j.loads s ≢ some (obj gs))
        × ((b : Text) × (find_block s ≡ some b) × (j.loads b ≡ some (obj fs))))

-- There is a reply, and without its fence it gives a dictionary in which `is_grounded` is missing or false, for a reason
-- that is no failure of the judge.
abbrev pub Refuses : JsonTexts → Option Text → Type 0
Refuses j none = ⊥
Refuses j (some t) =
    (fs : Fields) × Reads j (strip_fences j t) fs
    × IsFalsy (field_of "is_grounded" fs)
    × HasPlainReason j (field_of "reason" fs)

says_grounded-IsFalsy : (v : Option Json) → (says_grounded v ≡ false) ↔ IsFalsy v
says_grounded-IsFalsy none = (λ h. tt, λ h. refl)
says_grounded-IsFalsy (some null) = (λ h. tt, λ h. refl)
says_grounded-IsFalsy (some (bool b)) = (λ h. h, λ h. h)
says_grounded-IsFalsy (some (num n)) = (ground arith, ground arith)
says_grounded-IsFalsy (some (text s)) = (ground (arith, eq_iff s ""), ground (arith, eq_iff s ""))
says_grounded-IsFalsy (some (arr nil)) = (λ h. tt, λ h. refl)
says_grounded-IsFalsy (some (arr (cons v vs))) = (λ h. absurd cc, λ h. absurd h)
says_grounded-IsFalsy (some (obj end)) = (λ h. tt, λ h. refl)
says_grounded-IsFalsy (some (obj (field k v fs))) = (λ h. absurd cc, λ h. absurd h)

same_text_iff : (x y : Text) → (same_text x y ≡ false) ↔ (x ≢ y)
same_text_iff x y = elim (Bool-cases (same_text x y)) [
  | inl same ↦ (λ h. absurd cc, λ d. absurd (d (same_text-eq x y same)))
  | inr differ ↦ (λ h e. absurd (differs h e), λ d. differ)
]
  where
    differs : same_text x y ≡ false → x ≡ y → ⊥
    differs h e = let t : same_text x y ≡ true = rw e (same_text_self y) in ground (arith, h, t)

is_failure-IsPlainReason : (r : Text) → (is_failure r ≡ false) ↔ IsPlainReason r
is_failure-IsPlainReason r =
    let p = same_text_iff r (codes "provider_error") in
    let q = same_text_iff r (codes "parse_error") in
    (λ h. (p.0 (ground (arith, h)), q.0 (ground (arith, h))), λ h. ground (arith, p.1 h.0, q.1 h.1))

reason_text-HasPlainReason :
    (j : JsonTexts) (v : Option Json) → (is_failure (reason_text j v) ≡ false) ↔ HasPlainReason j v
reason_text-HasPlainReason j none = is_failure-IsPlainReason _
reason_text-HasPlainReason j (some null) = is_failure-IsPlainReason _
reason_text-HasPlainReason j (some (bool b)) = is_failure-IsPlainReason _
reason_text-HasPlainReason j (some (num n)) = is_failure-IsPlainReason _
reason_text-HasPlainReason j (some (text s)) = is_failure-IsPlainReason _
reason_text-HasPlainReason j (some (arr vs)) = is_failure-IsPlainReason _
reason_text-HasPlainReason j (some (obj fs)) = is_failure-IsPlainReason _

verdict_on-ungrounded :
    (v : JudgeVerdict)
    → (verdict_on v ≡ ungrounded) ↔ ((v.is_grounded ≡ false) × (is_failure v.reason ≡ false))
unfolding verdict_on
verdict_on-ungrounded v = (ground arith, ground arith)

failure-ungrounded :
    (reason : String)
    → is_failure (codes reason) ≡ true
    → verdict_on (ungrounded_for reason) ≢ ungrounded
unfolding verdict_on
failure-ungrounded reason h k = ground arith

module _ (j : JsonTexts) where
  loaded_dict-some : (v : Option Json) (fs : Fields) → loaded_dict v ≡ some fs → v ≡ some (obj fs)
  loaded_dict-some none fs h = absurd cc
  loaded_dict-some (some (obj gs)) fs h = ground arith
  loaded_dict-some (some null) fs h = absurd cc
  loaded_dict-some (some (bool b)) fs h = absurd cc
  loaded_dict-some (some (num n)) fs h = absurd cc
  loaded_dict-some (some (text s)) fs h = absurd cc
  loaded_dict-some (some (arr vs)) fs h = absurd cc

  loaded_dict-none : (v : Option Json) → ((gs : Fields) → v ≢ some (obj gs)) → loaded_dict v ≡ none
  loaded_dict-none none h = refl
  loaded_dict-none (some (obj gs)) h = absurd (h gs refl)
  loaded_dict-none (some null) h = refl
  loaded_dict-none (some (bool b)) h = refl
  loaded_dict-none (some (num n)) h = refl
  loaded_dict-none (some (text s)) h = refl
  loaded_dict-none (some (arr vs)) h = refl

  block-Reads :
      (s : Text) (fs : Fields)
      → loaded_dict (j.loads s) ≡ none
      → loaded j (find_block s) ≡ some fs
      → Reads j s fs
  block-Reads s fs none_loaded h = elim (Option-cases (find_block s)) [
    | inl none_found ↦ absurd (ground (arith, none_found, h))
    | inr (b, found) ↦ inr (
      λ gs e. absurd (ground (arith, e, none_loaded)),
      (b, found, loaded_dict-some (j.loads b) fs (rw found at h)),
    )
  ]

  to_Reads :
      (s : Text) (fs : Fields)
      → or_block (loaded_dict (j.loads s)) (loaded j (find_block s)) ≡ some fs
      → Reads j s fs
  to_Reads s fs h = elim (Option-cases (loaded_dict (j.loads s))) [
    | inl none_loaded ↦ block-Reads s fs none_loaded (rw none_loaded at h)
    | inr (gs, whole) ↦ inl (loaded_dict-some (j.loads s) fs (whole ∙ (rw whole at h)))
  ]

  from_Reads :
      (s : Text) (fs : Fields)
      → Reads j s fs
      → or_block (loaded_dict (j.loads s)) (loaded j (find_block s)) ≡ some fs
  from_Reads s fs (inl whole) = rw whole refl
  from_Reads s fs (inr (no_dict, (b, found, read))) =
      rw (loaded_dict-none (j.loads s) no_dict) (rw found (rw read refl))

  said-ungrounded :
      (fs : Fields)
      → (verdict_on (said j (some fs)) ≡ ungrounded)
        ↔ (IsFalsy (field_of "is_grounded" fs) × HasPlainReason j (field_of "reason" fs))
  said-ungrounded fs =
      let v = verdict_on-ungrounded (said j (some fs)) in
      let g = says_grounded-IsFalsy (field_of "is_grounded" fs) in
      let r = reason_text-HasPlainReason j (field_of "reason" fs) in
      (λ h. let (a, b) = v.0 h in (g.0 a, r.0 b), λ h. v.1 (g.1 h.0, r.1 h.1))

  parsed-ungrounded :
      (t : Text) → (verdict_on (parse_judge_output j t) ≡ ungrounded) ↔ Refuses j (some t)
  unfolding parse_judge_output reply_of same_text
  parsed-ungrounded t = (
    λ h. elim (Option-cases (reply_of j t)) [
      | inl none_read ↦ absurd (failure-ungrounded "parse_error" refl (rw none_read at h))
      | inr (fs, read) ↦
          let (falsy, plain) = (said-ungrounded fs).0 (rw read at h) in
          (fs, to_Reads (strip_fences j t) fs read, falsy, plain)
    ],
    λ (fs, reads, falsy, plain).
        rw (from_Reads (strip_fences j t) fs reads) ((said-ungrounded fs).1 (falsy, plain)),
  )

  replied-ungrounded :
      (reply : Option Text) → (verdict_on (replied j reply) ≡ ungrounded) ↔ Refuses j reply
  unfolding same_text
  replied-ungrounded none =
      (λ h. absurd (failure-ungrounded "provider_error" refl h), λ never. absurd never)
  replied-ungrounded (some t) = parsed-ungrounded t

  -- The validator's judge rejects a citation exactly when its prompt loads, the provider replies, and
  -- the reply without its fence gives a dictionary, as a whole or by its first block, in which
  -- `is_grounded` is missing or falsy, and whose reason is neither `provider_error` nor `parse_error`:
  -- a refusal for such a reason counts as a failure.
  pub judge-ungrounded :
      (prompt_loads : Bool) (complete : Text → Json → Option Text) (claim : Text) (payload : Json)
      → (judge j prompt_loads complete claim payload ≡ ungrounded)
        ↔ ((prompt_loads ≡ true) × Refuses j (complete claim payload))
  unfolding judge judge_grounding same_text
  judge-ungrounded true complete claim payload =
      let h = replied-ungrounded (complete claim payload) in (λ k. (refl, h.0 k), λ k. h.1 k.1)
  judge-ungrounded false complete claim payload =
      (λ h. absurd (failure-ungrounded "provider_error" refl h), λ k. absurd cc)
