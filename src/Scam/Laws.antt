-- ===== src/Scam/Laws.antt =====
-- Verdicts, and the log of reports over a failed upload.
use Prim.Native.Nat.{max}
use hwfa.Common.{
  ℕ, zero, suc, Bool, true, false, Option, none, some, List, [], ◌∷◌, ◌++◌, map, ◌≡◌, refl, sym, ap,
  ◌∙◌, arith, String, ◌==◌, Bool-cases, inl, inr,
}
use mathlib.Core.List.{append-nil, append_assoc}
use hwfa.Models.{ScamCategory, ScamVerdict, FalsePositiveReport}
use hwfa.Scam.{Signal, signals, score_all, empty_verdict, verdict_from, analyze}
use hwfa.Scam.Reports.{Reporter, ensure_loaded, report, report_all, flush, restore}

-- The highest of the scores.
abbrev best : List (ScamCategory × ℕ) → ℕ
best [] = 0
best ((c, v) ∷ scores) = max v (best scores)

-- The signal with the number `n`, if there is one.
abbrev pub signal_at : List Signal → ℕ → Option Signal
signal_at [] n = none
signal_at (s ∷ ss) zero = some s
signal_at (s ∷ ss) (suc n) = signal_at ss n

score_all_of_none :
    (found : ℕ → Bool) (i : ℕ) (ss : List Signal) (scores : List (ScamCategory × ℕ))
    → ((n : ℕ) → found n ≡ false)
    → score_all found i ss scores ≡ scores
unfolding score_all
score_all_of_none found i [] scores h = refl
score_all_of_none found i (s ∷ ss) scores h = rw (h i) (score_all_of_none found (suc i) ss scores h)

-- Where none of the signals is found the verdict is the empty one, whatever amplifiers are found.
pub amplifiers_do_not_flag :
    (found amplified : String → ℕ → Bool) (text : String)
    → ((n : ℕ) → found text n ≡ false)
    → analyze found amplified text ≡ empty_verdict
unfolding analyze verdict_from
amplifiers_do_not_flag found amplified text h = elim (Bool-cases (text == "")) [
  | inl e ↦ rw (e, analyze)
  | inr e ↦ rw (e, score_all_of_none (found text) 0 signals [] h, analyze)
]

abbrev entries : (String → String) → List (ℕ × String × ScamVerdict) → List FalsePositiveReport
entries hash_text =
    map (λ e. record { text_hash = hash_text e.1; verdict = e.2; reported_at = e.0 })

ensure_loaded-loaded : (r : Reporter) → (ensure_loaded r).loaded ≡ true
unfolding ensure_loaded
ensure_loaded-loaded r = elim (Bool-cases r.loaded) [ inl e ↦ ground arith | inr e ↦ ground arith ]

ensure_loaded_of_loaded : (r : Reporter) → r.loaded ≡ true → (ensure_loaded r).pending ≡ r.pending
unfolding ensure_loaded
ensure_loaded_of_loaded r l = ground arith

pending-report_all :
    (hash_text : String → String) (r : Reporter) (es : List (ℕ × String × ScamVerdict))
    → r.loaded ≡ true
    → ((report_all hash_text r es).pending ≡ r.pending ++ entries hash_text es)
      × ((report_all hash_text r es).loaded ≡ true)
unfolding report_all report
pending-report_all hash_text r [] l = (sym (append-nil r.pending), l)
pending-report_all hash_text r ((now, text, verdict) ∷ es) l =
    let new : FalsePositiveReport = record {
      text_hash = hash_text text;
      verdict = verdict;
      reported_at = now;
    } in
    let (p, l') =
      pending-report_all hash_text (report hash_text r now text verdict) es
        (ensure_loaded-loaded r) in
    (
      p
          ∙ ap (λ xs. (xs ++ new ∷ []) ++ entries hash_text es) (ensure_loaded_of_loaded r l)
          ∙ append_assoc r.pending (new ∷ []) (entries hash_text es),
      l',
    )

-- A batch that is flushed and restored after a failed upload, with other reports in between, leaves
-- the same reports pending in the same order as those reports without the flush, and the sink holds
-- what is pending.
pub restore-flush :
    (hash_text : String → String) (r : Reporter) (es : List (ℕ × String × ScamVerdict))
    → let (batch, r') = flush r in
      let r'' = restore (report_all hash_text r' es) batch in
      (r''.pending ≡ (report_all hash_text (ensure_loaded r) es).pending) × (r''.sink ≡ r''.pending)
unfolding flush restore
restore-flush hash_text r es =
    let loaded = ensure_loaded-loaded r in
    let (p, l) = pending-report_all hash_text (flush r).1 es loaded in
    let (q, _) = pending-report_all hash_text (ensure_loaded r) es loaded in
    (
      ap (λ xs. (ensure_loaded r).pending ++ xs)
            (ensure_loaded_of_loaded (report_all hash_text (flush r).1 es) l ∙ p)
          ∙ sym q,
      refl,
    )
