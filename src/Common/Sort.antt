-- ===== src/Common/Sort.antt =====
-- `[...xs].sort((a, b) => key(b) - key(a))`: the stable sort by falling key, as insertion.
use Prim.Native.Nat.{ℕ, ◌≤◌}
use mathlib.Core.List.{List, [], ◌∷◌, Perm}
use mathlib.Core.List.Perm
use native.Mathlib.Omega.{arith}
use mathlib.Core.Bool.{Bool}
use hwfa.Common.Lists.{filter}
use hwfa.Common.Tests.{leb, if◌then◌else◌, Bool-cases}
use mathlib.Core.Logic.{inl, inr}

module _ {ℓ} {A : Type ℓ} (key : A → ℕ) where
  unfoldable pub insert_desc : A → List A → List A
  insert_desc x [] = x ∷ []
  insert_desc x (y ∷ ys) = if leb (key y) (key x) then x ∷ y ∷ ys else y ∷ insert_desc x ys

  unfoldable pub sort_desc : List A → List A
  unfolding insert_desc
  sort_desc [] = []
  sort_desc (x ∷ xs) = insert_desc x (sort_desc xs)

  abbrev AtMost : ℕ → List A → Type 0
  AtMost n [] = Unit
  AtMost n (x ∷ xs) = key x ≤ n

  -- Each key is at most the one before it.
  abbrev pub IsDescending : List A → Type 0
  IsDescending [] = Unit
  IsDescending (x ∷ xs) = AtMost (key x) xs × IsDescending xs

  insert_desc-AtMost :
      (n : ℕ) (x : A) (xs : List A) → key x ≤ n → AtMost n xs → AtMost n (insert_desc x xs)
  unfolding insert_desc
  insert_desc-AtMost n x [] h k = h
  insert_desc-AtMost n x (y ∷ ys) h k = ground arith

  insert_desc-IsDescending :
      (x : A) (xs : List A) → IsDescending xs → IsDescending (insert_desc x xs)
  unfolding insert_desc
  insert_desc-IsDescending x [] h = (tt, tt)
  insert_desc-IsDescending x (y ∷ ys) (h, k) = elim (Bool-cases (leb (key y) (key x))) [
    | inl e ↦ rw e (ground arith, (h, k))
    | inr e ↦
        rw e (insert_desc-AtMost (key y) x ys (ground arith) h, insert_desc-IsDescending x ys k)
  ]

  pub sort_desc-IsDescending : (xs : List A) → IsDescending (sort_desc xs)
  unfolding sort_desc
  sort_desc-IsDescending [] = tt
  sort_desc-IsDescending (x ∷ xs) =
      insert_desc-IsDescending x (sort_desc xs) (sort_desc-IsDescending xs)

  insert_desc-perm : (x : A) (xs : List A) → Perm (insert_desc x xs) (x ∷ xs)
  unfolding insert_desc
  insert_desc-perm x [] = Perm.refl _
  insert_desc-perm x (y ∷ ys) = elim (Bool-cases (leb (key y) (key x))) [
    | inl e ↦ rw e (Perm.refl _)
    | inr e ↦ rw e (Perm.trans (Perm.cons y (insert_desc-perm x ys)) (Perm.swap _ _ _))
  ]

  pub sort_desc-perm : (xs : List A) → Perm (sort_desc xs) xs
  unfolding sort_desc
  sort_desc-perm [] = Perm.refl _
  sort_desc-perm (x ∷ xs) =
      Perm.trans (insert_desc-perm x (sort_desc xs)) (Perm.cons x (sort_desc-perm xs))

  AtMost-weaken : (n m : ℕ) (xs : List A) → m ≤ n → AtMost m xs → AtMost n xs
  AtMost-weaken n m [] h k = tt
  AtMost-weaken n m (x ∷ xs) h k = omega arith

  filter-AtMost :
      (n : ℕ) (p : A → Bool) (xs : List A) → AtMost n xs → IsDescending xs → AtMost n (filter p xs)
  filter-AtMost n p [] h d = tt
  filter-AtMost n p (x ∷ xs) h (k, d) = elim (Bool-cases (p x)) [
    | inl e ↦ rw e h
    | inr e ↦ rw e (filter-AtMost n p xs (AtMost-weaken n (key x) xs h k) d)
  ]

  pub filter-IsDescending :
      (p : A → Bool) (xs : List A) → IsDescending xs → IsDescending (filter p xs)
  filter-IsDescending p [] d = tt
  filter-IsDescending p (x ∷ xs) (k, d) = elim (Bool-cases (p x)) [
    | inl e ↦ rw e (filter-AtMost (key x) p xs k d, filter-IsDescending p xs d)
    | inr e ↦ rw e (filter-IsDescending p xs d)
  ]
