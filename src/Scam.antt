-- ===== src/Scam.antt =====
-- The scam detector (packages/client/src/scam/detector.ts, class HeuristicScamDetector). A weight
-- or a score is a number of hundredths, so scores are exact where the code adds binary fractions.
-- Regular expressions are not the program's: whether a pattern is found in a text is a parameter,
-- and patterns are numbered in the order of the code.
pub mod Reports
pub mod Laws
mod Tests
use Prim.Native.Nat.{min}
use hwfa.Common.{
  ℕ, zero, suc, ◌+◌, ◌*◌, Bool, true, false, not, ◌&&◌, Option, none, some, List, [], ◌∷◌, String,
  ◌==◌, ltb, leb, if◌then◌else◌,
}
use hwfa.Models.{
  ScamCategory, advance_fee, investment_fraud, romance, job_offer, impersonation, phishing, lottery,
  otp_solicitation, deepfake, rental_escrow, ScamVerdict,
}

abbrev pub heuristic_model_version : String
heuristic_model_version = "heuristic-0"

abbrev pub flag_threshold : ℕ
flag_threshold = 50

pub record Signal : Type 0 where
  pub category : ScamCategory
  pub weight : ℕ

abbrev pub strong : ℕ
strong = 55

abbrev pub weak : ℕ
weak = 30

abbrev signal : ScamCategory → ℕ → Signal
signal category weight = record { category = category; weight = weight }

-- `SIGNALS`.
abbrev pub signals : List Signal
signals =
    signal advance_fee strong
    ∷ signal advance_fee strong
    ∷ signal advance_fee weak
    ∷ signal investment_fraud strong
    ∷ signal investment_fraud strong
    ∷ signal investment_fraud weak
    ∷ signal romance strong
    ∷ signal romance strong
    ∷ signal job_offer strong
    ∷ signal job_offer weak
    ∷ signal job_offer weak
    ∷ signal impersonation strong
    ∷ signal impersonation weak
    ∷ signal phishing strong
    ∷ signal phishing weak
    ∷ signal phishing weak
    ∷ signal lottery strong
    ∷ signal lottery weak
    ∷ signal otp_solicitation strong
    ∷ signal otp_solicitation strong
    ∷ signal rental_escrow strong
    ∷ signal rental_escrow weak
    ∷ []

abbrev pub amplifier_bonus : ℕ
amplifier_bonus = 15

abbrev pub code_of : ScamCategory → ℕ
code_of advance_fee = 0
code_of investment_fraud = 1
code_of romance = 2
code_of job_offer = 3
code_of impersonation = 4
code_of phishing = 5
code_of lottery = 6
code_of otp_solicitation = 7
code_of deepfake = 8
code_of rental_escrow = 9

-- `===` on categories.
abbrev pub same_category : ScamCategory → ScamCategory → Bool
same_category a b = leb (code_of a) (code_of b) && leb (code_of b) (code_of a)

-- `scores.set(c, (scores.get(c) ?? 0) + weight)`, in the order of insertion.
unfoldable pub add_score : List (ScamCategory × ℕ) → ScamCategory → ℕ → List (ScamCategory × ℕ)
add_score [] c w = (c, w) ∷ []
add_score ((d, v) ∷ scores) c w =
    if same_category d c then (d, v + w) ∷ scores else (d, v) ∷ add_score scores c w

-- The scores after the signals that are left, the next of which has the number `i`.
unfoldable pub score_all :
    (ℕ → Bool) → ℕ → List Signal → List (ScamCategory × ℕ) → List (ScamCategory × ℕ)
unfolding add_score
score_all found i [] scores = scores
score_all found i (s ∷ rest) scores =
    score_all found (suc i) rest (if found i then add_score scores s.category s.weight else scores)

-- The category with the highest score, the first of equals.
unfoldable pub top_of : Option ScamCategory → ℕ → List (ScamCategory × ℕ) → Option ScamCategory × ℕ
top_of category score [] = (category, score)
top_of category score ((c, v) ∷ scores) =
    let higher = top_of (some c) v scores in
    let same = top_of category score scores in if ltb score v then higher else same

abbrev pub empty_verdict : ScamVerdict
empty_verdict = record {
  flagged = false;
  category = none;
  score = 0;
  model_version = heuristic_model_version;
}

abbrev one_if : Bool → ℕ
one_if true = 1
one_if false = 0

-- `AMPLIFIERS.reduce`: how many of the three are found.
unfoldable pub amplifiers_in : (ℕ → Bool) → ℕ
amplifiers_in amplified = one_if (amplified 0) + one_if (amplified 1) + one_if (amplified 2)

unfoldable pub verdict_from : ℕ → List (ScamCategory × ℕ) → ScamVerdict
unfolding top_of
verdict_from amplifiers [] = empty_verdict
verdict_from amplifiers (e ∷ scores) =
    let (category, top) = top_of none 0 (e ∷ scores) in
    let score = min 100 (top + amplifiers * amplifier_bonus) in
    record {
      flagged = leb flag_threshold score;
      category = category;
      score = score;
      model_version = heuristic_model_version;
    }

-- Which of `SIGNALS` and of `AMPLIFIERS` are found in a text.
module _ (found amplified : String → ℕ → Bool) where
  unfoldable pub analyze : String → ScamVerdict
  unfolding score_all verdict_from
  analyze text =
      if text == ""
      then empty_verdict
      else verdict_from (amplifiers_in (amplified text)) (score_all (found text) 0 signals [])
