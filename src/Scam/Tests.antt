-- ===== src/Scam/Tests.antt =====
-- Concrete texts and reports, on which the laws are used.
use hwfa.Common.{ℕ, Bool, false, nat_eq, List, [], ◌∷◌, ◌≡◌, String}
use hwfa.Models.{ScamVerdict, FalsePositiveReport}
use hwfa.Scam.{empty_verdict}
use hwfa.Scam.Reports.{Reporter, ensure_loaded, report_all, flush, restore}
use hwfa.Scam.Laws.{restore-flush}

-- The pattern for an inheritance is found, or none.
abbrev found_first : String → ℕ → Bool
found_first text n = nat_eq n 0

abbrev found_none : String → ℕ → Bool
found_none text n = false

abbrev hash_text : String → String
hash_text text = text

abbrev saved : FalsePositiveReport
saved = record { text_hash = "h"; verdict = empty_verdict; reported_at = 1 }

abbrev reporter : Reporter
reporter = record { pending = []; loaded = false; sink = saved ∷ [] }

abbrev later : List (ℕ × String × ScamVerdict)
later = (5, "hi", empty_verdict) ∷ []

restore-flush_example :
    let (batch, r') = flush reporter in
    let r'' = restore (report_all hash_text r' later) batch in
    (r''.pending ≡ (report_all hash_text (ensure_loaded reporter) later).pending)
    × (r''.sink ≡ r''.pending)
restore-flush_example = restore-flush hash_text reporter later
