-- ===== src/Canary/Once.antt =====
-- A canary is judged once.
use oldman_agent.Prelude.{ℕ, String, ◌≡◌, refl, ap, ◌∙◌, true, Option, none, some}
use oldman_agent.Exec.{Result, ok, err, canary_used, ◌>>=◌}
use oldman_agent.Exec.Ends.{
  Ends, Ends-pure, Ends-raise, Ends-gets, Ends-modify, Ends-raise_if, Ends-bind, Ends-then,
}
use oldman_agent.Table.{find}
use oldman_agent.Table.Updates.{find_holds, find-update_hit}
use oldman_agent.Floats.{Floats}
use oldman_agent.Json.{Json, TextServices}
use oldman_agent.Db.{Db, CanaryRow}
use oldman_agent.Db.Calls.{Ends-on_village, Ends-any}
use oldman_agent.Canary.{CanaryVerdict, canary_of, require_unused, judge_canary_response}

-- The first canary under an identifier was used.
abbrev pub IsUsed : {R : Type 0} → String → Db R → Type 0
IsUsed id s = (r : CanaryRow) × (find (canary_of id) s.canaries ≡ some r) × (r.used ≡ true)

-- Of a value, that it is the canary found.
abbrev Found : {R : Type 0} → String → Result CanaryRow → Db R → Type 0
Found id (ok r) s = find (canary_of id) s.canaries ≡ some r
Found id (err e) s = Unit

module _ (F : Floats) where
  open F use {R}

  used_again :
      (u : TextServices) (threshold : R) (id seller : String) (response : Json) (now : ℕ) (s : Db R)
      → IsUsed id s
      → judge_canary_response F u threshold id seller response now s ≡ (err canary_used, s)
  unfolding judge_canary_response ◌>>=◌
  used_again u threshold id seller response now s (r, e, used) = rw e (rw used refl)

  -- What a judgement leaves of a canary.
  abbrev pub JudgedOnce :
      TextServices → R → String → Db R → Result (CanaryVerdict R) → Db R → Type 0
  JudgedOnce u threshold id s (ok v) s' =
      (seller : String) (response : Json) (now : ℕ)
      → judge_canary_response F u threshold id seller response now s' ≡ (err canary_used, s')
  JudgedOnce u threshold id s (err e) s' = s'.canaries ≡ s.canaries

  -- The canary that passes the checks is the first one of the identifier, unused.
  required :
      (id : String) (found : Option CanaryRow) (s : Db R)
      → find (canary_of id) s.canaries ≡ found
      → Ends (require_unused F found) s (λ r s'. (s' ≡ s) × Found id r s)
  required id none s e = Ends-raise _ s _ (refl, tt)
  required id (some r) s e =
      Ends-bind _ _ s _
        (Ends-raise_if _ _ s _ (λ used. (refl, tt)) λ unused. Ends-pure _ s _ (refl, e))

  -- A judgement that finishes uses its canary up: every later judgement of it, of any seller and any
  -- response, raises `canary_used` and changes nothing. One that raises leaves every canary as it was.
  pub judge_canary_once :
      (u : TextServices) (threshold : R) (id seller : String) (response : Json) (now : ℕ) (s : Db R)
      → Ends
          (judge_canary_response F u threshold id seller response now)
          s
          (JudgedOnce u threshold id s)
  unfolding judge_canary_response
  judge_canary_once u threshold id seller response now s = Ends-bind _ _ s _ (
      Ends-gets _ s _ (
        Ends-then _ _ s _ _ (required id _ s refl)
          (λ canary s1 (same, found).
            Ends-then _ _ s1 (λ r s'. s'.canaries ≡ s1.canaries) _
              (Ends-on_village _ s1 _ (Ends-any _ _ _ λ r v. refl))
              (λ trust s2 kept. Ends-bind _ _ s2 _ (
                Ends-modify _ s2 _ (
                  Ends-pure _ _ _ λ seller' response' now'.
                    used_again u threshold id seller' response' now' _ (
                      record canary { used = true; used_ts = some now },
                      find-update_hit (canary_of id) (canary_of id)
                          (λ r. record r { used = true; used_ts = some now }) (λ r. refl) canary
                          s2.canaries
                          (ap (find (canary_of id)) (kept ∙ ap (λ x. x.canaries) same) ∙ found)
                          (find_holds (canary_of id) canary s.canaries found),
                      refl,
                    ))))
              (λ e s2 kept. kept ∙ ap (λ x. x.canaries) same))
          (λ e s1 (same, _). ap (λ x. x.canaries) same)))
