-- ===== src/Screens/Laws/Format.antt =====
-- The lengths and the accuracy of the texts that the screens make.
use hwfa.Common.{
  ◌&&◌, ℕ, zero, suc, ◌+◌, ◌-◌, ◌*◌, ◌/◌, ◌≤◌, ◌<◌, Bool, true, false, ◌≡◌, refl, arith, String,
  ltb, nat_eq, if◌then◌else◌,
}
use hwfa.Common.Text.{◌+++◌, text_length, text_length-append, length-add_zeros}
use hwfa.Common.Digits.{to_text, length-to_text}
use hwfa.Screens.Format.{two_digits, LocalDate, minute, hour, day, format_clock, format_relative}

length-two_digits : (n : ℕ) → n < 100 → text_length (two_digits n) ≤ 2
unfolding two_digits
length-two_digits n h =
    omega (
      arith,
      length-to_text 1 n h,
      length-add_zeros (2 - text_length (to_text 10 n)) (to_text 10 n),
    )

-- The fields of a date lie in their ranges.
abbrev pub IsDate : LocalDate → Type 0
IsDate d = (d.hours < 24) × (d.minutes < 60) × (d.date ≤ 31) × (d.month < 12)

join_length :
    (s t u : String) (n m k : ℕ)
    → text_length s ≤ n
    → text_length t ≤ m
    → text_length u ≤ k
    → text_length (s +++ t +++ u) ≤ n + m + k
join_length s t u n m k p q r =
    omega (arith, text_length-append s (t +++ u), text_length-append t u)

if_length :
    (b : Bool) (s t : String) (n : ℕ)
    → (b ≡ true → text_length s ≤ n)
    → (b ≡ false → text_length t ≤ n)
    → text_length (if b then s else t) ≤ n
if_length true s t n h k = h refl
if_length false s t n h k = k refl

ended_length :
    (n : ℕ) (unit : String)
    → n < 100
    → text_length unit ≡ 1
    → text_length (to_text 10 n +++ unit) ≤ 3
ended_length n unit h k =
    omega (arith, length-to_text 1 n h, text_length-append (to_text 10 n) unit)

length-format_clock :
    (date_of : ℕ → LocalDate) (ts : ℕ)
    → IsDate (date_of ts)
    → text_length (format_clock date_of ts) ≤ 5
unfolding format_clock text_length
length-format_clock date_of ts (h, m, _, _) =
    join_length _ ":" _ 2 1 2 (length-two_digits _ (omega arith)) (omega arith)
      (length-two_digits _ (omega arith))

-- The stamp of a conversation has at most five characters, whatever the two times are, if the fields of
-- the date lie in their ranges.
pub length-format_relative :
    (date_of : ℕ → LocalDate) (ts now : ℕ)
    → IsDate (date_of ts)
    → text_length (format_relative date_of ts now) ≤ 5
unfolding format_relative text_length
length-format_relative date_of zero now h = omega arith
length-format_relative date_of (suc t) now h =
    let diff = now - suc t in
    let (hours, minutes, date, month) = h in
    if_length (ltb diff minute) _ _ 5 (λ _. omega arith)
      (λ _.
        if_length (ltb diff hour) _ _ 5
          (λ q. omega (arith, ended_length (diff / minute) "m" (ground (arith, q)) refl))
          (λ _.
            if_length (ltb diff day && nat_eq (date_of (suc t)).date (date_of now).date) _ _ 5
              (λ _. length-format_clock date_of (suc t) h)
              (λ _.
                if_length (ltb diff (7 * day)) _ _ 5
                  (λ q. omega (
                    arith,
                    ended_length (if nat_eq (diff / day) 0 then 1 else diff / day) "d"
                        (ground (arith, q)) refl,
                  ))
                  (λ _.
                    join_length _ "/" _ 2 1 2 (length-to_text 1 _ (omega arith)) (omega arith)
                      (length-to_text 1 _ (omega arith))))))
