-- ===== src/Scam/Reports.antt =====
-- The log of false positives (packages/client/src/scam/reports.ts, class FalsePositiveReporter).
-- The sink is what it has saved last. The hash of a text and the clock are arguments. An operation
-- runs to its end before the next one starts.
use hwfa.Common.{ℕ, Bool, true, false, List, [], ◌∷◌, ◌++◌, String, length, if◌then◌else◌}
use hwfa.Models.{FalsePositiveReport, ScamVerdict}

pub record Reporter : Type 0 where
  pub pending : List FalsePositiveReport
  pub loaded : Bool
  -- The reports that the sink holds.
  pub sink : List FalsePositiveReport

abbrev pub start_reporter : List FalsePositiveReport → Reporter
start_reporter saved = record { pending = []; loaded = false; sink = saved }

unfoldable pub ensure_loaded : Reporter → Reporter
ensure_loaded r = if r.loaded then r else record r { pending = r.sink; loaded = true }

abbrev save : Reporter → List FalsePositiveReport → Reporter
save r reports = record r { pending = reports; sink = reports }

unfoldable pub report : (String → String) → Reporter → ℕ → String → ScamVerdict → Reporter
unfolding ensure_loaded
report hash_text r now text verdict =
    let r' = ensure_loaded r in
    save r' (
      r'.pending
      ++ (record { text_hash = hash_text text; verdict = verdict; reported_at = now }) ∷ [])

unfoldable pub pending_count : Reporter → ℕ × Reporter
unfolding ensure_loaded
pending_count r = let r' = ensure_loaded r in (length r'.pending, r')

unfoldable pub flush : Reporter → List FalsePositiveReport × Reporter
unfolding ensure_loaded
flush r = let r' = ensure_loaded r in (r'.pending, save r' [])

unfoldable pub restore : Reporter → List FalsePositiveReport → Reporter
unfolding ensure_loaded
restore r batch = let r' = ensure_loaded r in save r' (batch ++ r'.pending)

-- `report` for each text, in order.
unfoldable pub report_all :
    (String → String) → Reporter → List (ℕ × String × ScamVerdict) → Reporter
report_all hash_text r [] = r
report_all hash_text r ((now, text, verdict) ∷ rest) =
    report_all hash_text (report hash_text r now text verdict) rest
