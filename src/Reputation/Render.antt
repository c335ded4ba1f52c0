-- ===== src/Reputation/Render.antt =====
-- app/narrative/reputation.py: a language model may word the report, but not invent its evidence.
pub mod Safety
use oldman_agent.Prelude.{
  ℕ, Bool, true, false, not, ◌&&◌, ◌||◌, Option, none, some, List, [], ◌∷◌, ◌++◌, map, eqb,
  if◌then◌else◌,
}
use oldman_agent.Narrative.Text.{Text, mem_text}
use oldman_agent.Narrative.Citation.{arrow}
use oldman_agent.Narrative.Validator.{is_nil}
use oldman_agent.Reputation.Report.{ReportCitation, ReputationReport}

-- Where the search for `\[↑([^\]]+)\]` stands: outside, behind `[`, or behind `[↑` and some text,
-- which is kept backwards.
pub data Scan : Type 0 where
  outside behind_bracket : Scan
  inside : Text → Scan

unfoldable pub reversed_text : Text → Text → Text
reversed_text acc [] = acc
reversed_text acc (c ∷ s) = reversed_text (c ∷ acc) s

abbrev pub next_scan : Scan → ℕ → Scan
next_scan outside c = if eqb c b'[' then behind_bracket else outside
next_scan behind_bracket c =
    if eqb c arrow then inside [] else if eqb c b'[' then behind_bracket else outside
next_scan (inside read) c = if eqb c b']' then outside else inside (c ∷ read)

abbrev pub found_at : Scan → ℕ → List Text
found_at (inside (r ∷ read)) c = if eqb c b']' then reversed_text [] (r ∷ read) ∷ [] else []
found_at _ c = []

-- `_MARKER_RE.findall`
unfoldable pub find_report_markers : Scan → Text → List Text
find_report_markers at [] = []
find_report_markers at (c ∷ s) = found_at at c ++ find_report_markers (next_scan at c) s

unfoldable pub all_among : List Text → List Text → Bool
all_among allowed [] = true
all_among allowed (m ∷ ms) = mem_text m allowed && all_among allowed ms

unfoldable pub markers_valid : Text → List ReportCitation → Bool
markers_valid text citations =
    let found = find_report_markers outside text in
    not (not (is_nil citations) && is_nil found)
    && all_among (map (λ c. c.short_id) citations) found

-- `strip`: `str.strip`
module _ (strip : Text → Text) where
  abbrev pub accepted : ReputationReport → Text → Text × Bool
  accepted report text =
      if is_nil text || not (markers_valid text report.citations)
      then (report.text, false)
      else (text, true)

  abbrev pub worded : ReputationReport → Option Text → Text × Bool
  worded report none = (report.text, false)
  worded report (some reply) = accepted report (strip reply)

  abbrev pub worded_by : Option (ReputationReport → Option Text) → ReputationReport → Text × Bool
  worded_by none report = (report.text, false)
  worded_by (some complete) report = worded report (complete report)

  -- `complete`, if there is a model: its reply to the facts, or an exception.
  unfoldable pub render_reputation_narrative :
      Option (ReputationReport → Option Text) → ReputationReport → Text × Bool
  render_reputation_narrative provider report =
      let by_model = worded_by provider report in
      if is_nil report.citations then (report.text, false) else by_model
