-- ===== src/KeyPool/Laws.antt =====
-- A replenished key never takes the place of another.
mod Tests
use hwfa.Common.{
  ℕ, zero, suc, ◌+◌, ◌<◌, ◌≡◌, ◌≢◌, refl, ◌∙◌, arith, Bool, false, Option, none, some, List, [],
  ◌∷◌, String, ◌==◌, eq_iff, is_some, Bool-cases,
}
use hwfa.Common.Dict.{Dict, get-set}
use hwfa.Common.Digits.{to_text, to_text_injective}
use hwfa.SignalStores.{save_pre_key, get_pre_key}
use hwfa.KeyPool.{mint_from, Provider, key_at}

-- `xs[i]`.
abbrev pub get_elem? : {A : Type 0} → List A → ℕ → Option A
get_elem? [] i = none
get_elem? (x ∷ xs) zero = some x
get_elem? (x ∷ xs) (suc i) = get_elem? xs i

plus_zero : (n : ℕ) → n + 0 ≡ n
plus_zero n = omega arith

plus_suc : (n m : ℕ) → n + suc m ≡ n + 1 + m
plus_suc n m = omega arith

module _ {R : Type 0} where
  get_pre_key-save_pre_key :
      (keys : Dict R) (id : ℕ) (key : R) → get_pre_key (save_pre_key keys id key) id ≡ some key
  unfolding get_pre_key save_pre_key
  get_pre_key-save_pre_key keys id key = ground (
    arith,
    get-set keys (to_text 10 id) (to_text 10 id) key,
    eq_iff (to_text 10 id) (to_text 10 id),
  )

  get_pre_key-save_pre_key_ne :
      (keys : Dict R) (id other : ℕ) (key : R)
      → id ≢ other
      → get_pre_key (save_pre_key keys id key) other ≡ get_pre_key keys other
  unfolding get_pre_key save_pre_key
  get_pre_key-save_pre_key_ne keys id other key ne = ground (
    arith,
    get-set keys (to_text 10 id) (to_text 10 other) key,
    eq_iff (to_text 10 id) (to_text 10 other),
    to_text_injective id other,
  )

  -- The keys below the first new id stay.
  mint_from-below :
      (drawn : ℕ → R × String) (start i n : ℕ) (keys : Dict R) (id : ℕ)
      → id < start + i
      → get_pre_key (mint_from drawn start i n keys).1 id ≡ get_pre_key keys id
  unfolding mint_from
  mint_from-below drawn start i zero keys id h = refl
  mint_from-below drawn start i (suc n) keys id h =
      mint_from-below drawn start (i + 1) n (save_pre_key keys (start + i) (drawn i).0) id
        (omega arith)
      ∙ get_pre_key-save_pre_key_ne keys (start + i) id (drawn i).0 (λ e. omega (arith, e))

  -- Each new id has the key that was drawn for it.
  pub mint_from-at :
      (drawn : ℕ → R × String) (start i n : ℕ) (keys : Dict R) (j : ℕ)
      → j < n
      → get_pre_key (mint_from drawn start i n keys).1 (start + (i + j)) ≡ some (drawn (i + j)).0
  unfolding mint_from
  mint_from-at drawn start i zero keys j h = absurd (omega arith)
  mint_from-at drawn start i (suc n) keys zero h = rw (plus_zero i) (
      mint_from-below drawn start (i + 1) n (save_pre_key keys (start + i) (drawn i).0) (start + i)
        (omega arith)
      ∙ get_pre_key-save_pre_key keys (start + i) (drawn i).0)
  mint_from-at drawn start i (suc n) keys (suc j) h = rw (plus_suc i j) (
      mint_from-at drawn start (i + 1) n (save_pre_key keys (start + i) (drawn i).0) j
        (omega arith))

  -- No key has an id past the highest.
  abbrev IsBelow : Provider R → Type 0
  IsBelow p = (id : ℕ) → p.pre_key_high < id → key_at p id ≡ none
