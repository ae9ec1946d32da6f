-- ===== src/Screens/Format.antt =====
-- Texts that the screens make: apps/mobile/src/screens/ChatScreen.tsx (formatSize),
-- apps/mobile/src/screens/CallScreen.tsx (useCallTimer), apps/mobile/src/util/time.ts, and the rows of
-- apps/mobile/src/screens/HomeScreen.tsx (convTitle, convPreview, hasScam). A size is a whole number of
-- bytes; dividing one by 1024 is exact on numbers that a double holds, and so is the rounding here.
use hwfa.Common.{
  ℕ, zero, suc, ◌+◌, ◌-◌, ◌*◌, ◌/◌, ◌%◌, ◌^◌, Bool, false, not, ◌&&◌, ◌||◌, Option, none, some,
  List, [], ◌∷◌, String, or_default, ltb, leb, nat_eq, if◌then◌else◌,
}
use hwfa.Common.Text.{◌+++◌, take_text, text_length, add_zeros}
use hwfa.Conversations.{ChatMessage, Conversation}
use hwfa.Common.Digits.{to_text}

abbrev pub units : ℕ → String
units zero = "B"
units (suc zero) = "KB"
units (suc (suc zero)) = "MB"
units _ = "GB"

-- The rounds of the loop: the unit is divided by 1024 while it can be. The bytes are `n` times
-- `1024 ^ i`, so the test `n >= 1024` reads `bytes >= 1024 ^ (i + 1)`.
unfoldable pub unit_of : ℕ → ℕ → ℕ → ℕ
unit_of zero bytes i = i
unit_of (suc rounds) bytes i =
    let rest = unit_of rounds bytes (i + 1) in if leb (1024 ^ (i + 1)) bytes then rest else i

-- `Math.round` of `a / b`, which rounds a half up, as `toFixed(1)` does in tenths.
abbrev pub round_div : ℕ → ℕ → ℕ
round_div a b = (2 * a + b) / (2 * b)

-- `n >= 10 || i === 0 ? Math.round(n) : n.toFixed(1)`, where n is the bytes over the unit.
unfoldable pub amount : ℕ → ℕ → String
amount bytes i =
    let tenths = round_div (10 * bytes) (1024 ^ i) in
    if leb (10 * 1024 ^ i) bytes || nat_eq i 0
    then to_text 10 (round_div bytes (1024 ^ i))
    else to_text 10 (tenths / 10) +++ "." +++ to_text 10 (tenths % 10)

unfoldable pub format_size : Option ℕ → String
unfolding unit_of amount
format_size none = ""
format_size (some zero) = ""
format_size (some (suc b)) = let i = unit_of 3 (suc b) 0 in amount (suc b) i +++ " " +++ units i

-- `String(n).padStart(2, '0')`.
unfoldable pub two_digits : ℕ → String
two_digits n = add_zeros (2 - text_length (to_text 10 n)) (to_text 10 n)

-- The text of a call that started at a time; `now` is not before it, or counts as that time.
unfoldable pub call_timer : Option ℕ → ℕ → String
unfolding two_digits
call_timer none now = ""
call_timer (some zero) now = ""
call_timer (some (suc t)) now =
    let s = (now - suc t) / 1000 in two_digits (s / 60) +++ ":" +++ two_digits (s % 60)

-- What a `Date` of a time tells in the local zone; `month` counts from 0.
pub record LocalDate : Type 0 where
  pub hours : ℕ
  pub minutes : ℕ
  pub date : ℕ
  pub month : ℕ

abbrev pub minute : ℕ
minute = 60000

abbrev pub hour : ℕ
hour = 3600000

abbrev pub day : ℕ
day = 86400000

module _ (date_of : ℕ → LocalDate) where
  unfoldable pub format_clock : ℕ → String
  unfolding two_digits
  format_clock ts = two_digits (date_of ts).hours +++ ":" +++ two_digits (date_of ts).minutes

  -- A time after `now` is shown as `now`, as the difference is then below a minute.
  unfoldable pub format_relative : ℕ → ℕ → String
  unfolding format_clock
  format_relative zero now = ""
  format_relative (suc t) now =
      let diff = now - suc t in
      if ltb diff minute
      then "now"
      else if ltb diff hour
      then to_text 10 (diff / minute) +++ "m"
      else if ltb diff day && nat_eq (date_of (suc t)).date (date_of now).date
      then format_clock (suc t)
      else if ltb diff (7 * day)
      then to_text 10 (if nat_eq (diff / day) 0 then 1 else diff / day) +++ "d"
      else to_text 10 ((date_of (suc t)).month + 1) +++ "/" +++ to_text 10 (date_of (suc t)).date

-- The rows of the list of conversations.
abbrev pub short_id : String → String
short_id id = take_text 8 id +++ "…"

unfoldable pub conv_title : Conversation → String
conv_title conv = or_default conv.peer_phone (short_id conv.peer_user_id)

unfoldable pub last_message : List ChatMessage → Option ChatMessage
last_message [] = none
last_message (m ∷ []) = some m
last_message (m ∷ n ∷ ms) = last_message (n ∷ ms)

unfoldable pub conv_preview : Conversation → String
unfolding last_message
conv_preview conv = elim (last_message conv.messages) [
  | none ↦ "No messages yet"
  | some m ↦ (if m.mine then "You: " else "") +++ m.text
]

unfoldable pub is_flagged : ChatMessage → Bool
is_flagged m = elim m.verdict [ none ↦ false | some v ↦ v.flagged && not m.dismissed ]

unfoldable pub any_flagged : List ChatMessage → Bool
unfolding is_flagged
any_flagged [] = false
any_flagged (m ∷ ms) = is_flagged m || any_flagged ms

unfoldable pub has_scam : Conversation → Bool
unfolding any_flagged
has_scam conv = any_flagged conv.messages
