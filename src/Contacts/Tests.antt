-- ===== src/Contacts/Tests.antt =====
-- Concrete numbers.
use hwfa.Common.{none, some, ◌≡◌, refl}
use hwfa.Common.Text.{text_length, slice_after, starts_with}
use hwfa.Contacts.{normalize_e164, international}

local_test : normalize_e164 "0801 234 5678" (some "234") ≡ some "+2348012345678"
unfolding normalize_e164 international text_length slice_after starts_with
local_test = refl

-- The 00 branch lets a second `+` through.
double_plus_test : normalize_e164 "00+2348012345678" none ≡ some "++2348012345678"
unfolding normalize_e164 international text_length slice_after starts_with
double_plus_test = refl
