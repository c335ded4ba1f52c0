-- ===== src/Reputation/Render/Safety.antt =====
-- The wording of a report cites only the report's evidence.
use oldman_agent.Prelude.{
  ◌≡◌, inl, inr, refl, Bool, true, false, not, ◌||◌, Option, none, some, List, [], ◌∷◌, map, All,
  Bool-cases, arith,
}
use oldman_agent.Narrative.Text.{Text, mem_text}
use oldman_agent.Narrative.Validator.{is_nil}
use oldman_agent.Reputation.Report.{ReputationReport}
use oldman_agent.Reputation.Render.{
  outside, find_report_markers, all_among, markers_valid, accepted, worded, worded_by,
  render_reputation_narrative,
}

-- Of a text of a model: it has a marker, and all its markers are short ids of the evidence.
pub record IsCited (report : ReputationReport) (text : Text) : Type 0 where
  pub has_evidence : is_nil report.citations ≡ false
  pub not_blank : is_nil text ≡ false
  pub marked : is_nil (find_report_markers outside text) ≡ false
  pub among :
      All
        (λ m. mem_text m (map (λ c. c.short_id) report.citations) ≡ true)
        (find_report_markers outside text)

-- The fixed wording, or a cited one of the model.
abbrev pub IsWordedSafely : ReputationReport → Text × Bool → Type 0
IsWordedSafely report (text, false) = text ≡ report.text
IsWordedSafely report (text, true) = IsCited report text

all_among-All :
    (allowed found : List Text)
    → all_among allowed found ≡ true
    → All (λ m. mem_text m allowed ≡ true) found
unfolding all_among
all_among-All allowed [] h = tt
all_among-All allowed (m ∷ ms) h = (ground arith, all_among-All allowed ms (ground arith))

module _ (strip : Text → Text) where
  accepted-IsWordedSafely :
      (report : ReputationReport) (text : Text)
      → is_nil report.citations ≡ false
      → IsWordedSafely report (accepted strip report text)
  unfolding markers_valid
  accepted-IsWordedSafely report text evidence =
      elim (Bool-cases (is_nil text || not (markers_valid text report.citations))) [
        | inl refused ↦ rw refused refl
        | inr fine ↦ rw fine (record {
          has_evidence = evidence;
          not_blank = ground (arith, fine);
          marked = ground (arith, fine, evidence);
          among = all_among-All _ _ (ground (arith, fine));
        })
      ]

  worded-IsWordedSafely :
      (report : ReputationReport) (reply : Option Text)
      → is_nil report.citations ≡ false
      → IsWordedSafely report (worded strip report reply)
  worded-IsWordedSafely report none evidence = refl
  worded-IsWordedSafely report (some reply) evidence =
      accepted-IsWordedSafely report (strip reply) evidence

  worded_by-IsWordedSafely :
      (provider : Option (ReputationReport → Option Text)) (report : ReputationReport)
      → is_nil report.citations ≡ false
      → IsWordedSafely report (worded_by strip provider report)
  worded_by-IsWordedSafely none report evidence = refl
  worded_by-IsWordedSafely (some complete) report evidence =
      worded-IsWordedSafely report (complete report) evidence

  -- A reputation answer is the report's own text, or a text of the model that has a marker and whose
  -- markers are all short ids of the report's citations, of which there is one at least.
  pub render_reputation-IsWordedSafely :
      (provider : Option (ReputationReport → Option Text)) (report : ReputationReport)
      → IsWordedSafely report (render_reputation_narrative strip provider report)
  unfolding render_reputation_narrative
  render_reputation-IsWordedSafely provider report = elim (Bool-cases (is_nil report.citations)) [
    | inl e ↦ rw e refl
    | inr e ↦ rw e (worded_by-IsWordedSafely provider report e)
  ]
