-- ===== src/Sessions/Laws/Tests.antt =====
-- A cipher that puts the number of the message before it, and marks the first one.
use hwfa.Common.{
  ℕ, zero, suc, Option, none, some, [], ◌∷◌, ◌≡◌, refl, arith, ◌==◌, nat_eq, if◌then◌else◌,
}
use hwfa.Models.{CiphertextType, pre_key, whisper}
use hwfa.Registration.{Bytes}
use hwfa.Registration.Laws.Unary.{write, read_from, read-write}
use hwfa.Sessions.{Libsignal, converse}
use hwfa.Sessions.Laws.{IsSound, converse_lem}

type_at : ℕ → CiphertextType
type_at zero = pre_key
type_at (suc n) = whisper

open_first : Bytes → ℕ → Option (Bytes × ℕ)
open_first (zero ∷ m) zero = some (m, 1)
open_first _ n = none

open_next : Bytes → ℕ → Option (Bytes × ℕ)
open_next (suc k ∷ m) (suc n) = if nat_eq k n then some (m, suc (suc n)) else none
open_next _ n = none

abbrev counting : Libsignal ℕ ℕ ℕ
counting = record {
  process_pre_key_bundle = λ b peer device s. some 0;
  signal_encrypt = λ m peer device s. some ((type_at s, s ∷ m), suc s);
  signal_decrypt_pre_key = λ c peer device s. open_first c s;
  signal_decrypt = λ c peer device s. open_next c s;
  encode_text = λ s. if s == "hi" then 1 ∷ [] else [];
  decode_text = λ b. elim b [ [] ↦ "" | _ ∷ _ ↦ "hi" ];
  to_base64 = write;
  from_base64 = read_from 0;
}

counting-first : (s : ℕ) (m : Bytes) → type_at s ≡ pre_key → open_first (s ∷ m) s ≡ some (m, suc s)
unfolding type_at open_first
counting-first zero m e = refl
counting-first (suc n) m e = cc

counting-next : (s : ℕ) (m : Bytes) → type_at s ≡ whisper → open_next (s ∷ m) s ≡ some (m, suc s)
unfolding type_at open_next
counting-next zero m e = cc
counting-next (suc n) m e = ground arith

counting-IsSound : IsSound counting ("al", 1) ("bob", 7) (λ s r. s ≡ r)
counting-IsSound = record {
  base64 = read-write;
  ratchet = λ s r m e. (
    (type_at s, s ∷ m),
    suc s,
    suc s,
    refl,
    λ t. rw (← e) (counting-first s m t),
    λ t. rw (← e) (counting-next s m t),
    refl,
  );
}

converse_lem_example :
    (alice' : ℕ) × (bob' : ℕ) × (converse counting
        (some 0)
        (some 0)
        ("al", 1)
        ("bob", 7)
        ("hi" ∷ "" ∷ "hi" ∷ [])
      ≡ some ("hi" ∷ "" ∷ "hi" ∷ [], some alice', some bob'))
    × (alice' ≡ bob')
converse_lem_example =
    converse_lem counting ("al", 1) ("bob", 7) (λ s r. s ≡ r) 0 0 ("hi" ∷ "" ∷ "hi" ∷ [])
      counting-IsSound (refl, (refl, (refl, tt))) refl
