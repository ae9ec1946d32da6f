-- ===== src/Statuses/Tests.antt =====
-- Concrete statuses, on which the laws are used.
use hwfa.Common.{false, none, [], ◌∷◌}
use hwfa.Wire.{StatusPayload}
use hwfa.Statuses.{StatusItem, upsert}
use hwfa.Statuses.Order.{IsTidy, upsert-IsTidy}

abbrev early : StatusPayload
early = record { id = "a"; text = "hi"; at = 10; expires_at = 50 }

abbrev late : StatusPayload
late = record { id = "b"; text = "yo"; at = 30; expires_at = 70 }

abbrev item_of : StatusPayload → StatusItem
item_of p = record { payload = p; from_user_id = "bob"; from_phone = none; mine = false }

upsert-IsTidy_example : IsTidy 40 (upsert (item_of early ∷ []) 40 (item_of late))
upsert-IsTidy_example = upsert-IsTidy (item_of early ∷ []) 40 (item_of late) (tt, tt)
