-- ===== src/Statuses/Order.antt =====
-- The list of statuses stays ordered, without copies and without what has expired.
use hwfa.Common.{
  ℕ, ◌<◌, Bool, not, ◌&&◌, List, [], ◌∷◌, ◌++◌, ◌≢◌, arith, ◌==◌, eq_iff, leb, filter, All,
  All-append, All-filter, Bool-cases, inl, inr, if◌then◌else◌,
}
use hwfa.Common.Sort.{sort_desc, insert_desc, IsDescending, sort_desc-IsDescending}
use hwfa.Statuses.{StatusItem, is_live, upsert}

abbrev pub at_key : StatusItem → ℕ
at_key s = s.at

-- No two entries have the same id.
abbrev pub IsDistinct : List StatusItem → Type 0
IsDistinct [] = Unit
IsDistinct (x ∷ xs) = All (λ y. y.id ≢ x.id) xs × IsDistinct xs

-- Newest first, no id twice, and everything expires later than `now`.
pub record IsTidy (now : ℕ) (items : List StatusItem) : Type 0 where
  pub ordered : IsDescending at_key items
  pub distinct : IsDistinct items
  pub live : All (λ s. now < s.expires_at) items

module _ {κ} (P : StatusItem → Type κ) where
  All-insert_desc :
      (x : StatusItem) (xs : List StatusItem) → P x → All P xs → All P (insert_desc at_key x xs)
  unfolding insert_desc
  All-insert_desc x [] p h = (p, tt)
  All-insert_desc x (y ∷ ys) p (q, h) = elim (Bool-cases (leb (at_key y) (at_key x))) [
    | inl e ↦ rw e (p, (q, h))
    | inr e ↦ rw e (q, All-insert_desc x ys p h)
  ]

  All-sort_desc : (xs : List StatusItem) → All P xs → All P (sort_desc at_key xs)
  unfolding sort_desc
  All-sort_desc [] h = tt
  All-sort_desc (x ∷ xs) (p, h) = All-insert_desc x (sort_desc at_key xs) p (All-sort_desc xs h)

insert_desc-IsDistinct :
    (x : StatusItem) (xs : List StatusItem)
    → All (λ y. y.id ≢ x.id) xs
    → IsDistinct xs
    → IsDistinct (insert_desc at_key x xs)
unfolding insert_desc
insert_desc-IsDistinct x [] n d = (tt, tt)
insert_desc-IsDistinct x (y ∷ ys) (n, ns) (m, d) = elim (Bool-cases (leb (at_key y) (at_key x))) [
  | inl e ↦ rw e ((n, ns), (m, d))
  | inr e ↦
      rw e
        (All-insert_desc (λ z. z.id ≢ y.id) x ys (λ p. n (cc)) m, insert_desc-IsDistinct x ys ns d)
]

sort_desc-IsDistinct : (xs : List StatusItem) → IsDistinct xs → IsDistinct (sort_desc at_key xs)
unfolding sort_desc
sort_desc-IsDistinct [] d = tt
sort_desc-IsDistinct (x ∷ xs) (n, d) =
    insert_desc-IsDistinct x (sort_desc at_key xs) (All-sort_desc (λ y. y.id ≢ x.id) xs n)
      (sort_desc-IsDistinct xs d)

pub filter-IsDistinct :
    (p : StatusItem → Bool) (xs : List StatusItem) → IsDistinct xs → IsDistinct (filter p xs)
filter-IsDistinct p [] d = tt
filter-IsDistinct p (x ∷ xs) (n, d) = elim (Bool-cases (p x)) [
  | inl e ↦ rw e (All-filter (λ y. y.id ≢ x.id) p xs n, filter-IsDistinct p xs d)
  | inr e ↦ rw e (filter-IsDistinct p xs d)
]

append-IsDistinct :
    (xs : List StatusItem) (x : StatusItem)
    → All (λ y. y.id ≢ x.id) xs
    → IsDistinct xs
    → IsDistinct (xs ++ x ∷ [])
append-IsDistinct [] x n d = (tt, tt)
append-IsDistinct (y ∷ ys) x (n, ns) (m, d) =
    (All-append (λ z. z.id ≢ y.id) ys (x ∷ []) m ((λ p. n (cc)), tt), append-IsDistinct ys x ns d)

-- What `upsert` keeps of the old list.
abbrev keeps : ℕ → StatusItem → StatusItem → Bool
keeps now item s = not (s.id == item.id) && is_live now s

kept-ne :
    (now : ℕ) (item : StatusItem) (xs : List StatusItem)
    → All (λ y. y.id ≢ item.id) (filter (keeps now item) xs)
kept-ne now item [] = tt
kept-ne now item (x ∷ xs) = ground (arith, kept-ne now item xs, eq_iff x.id item.id)

kept-live :
    (now : ℕ) (item : StatusItem) (xs : List StatusItem)
    → All (λ s. now < s.expires_at) (filter (keeps now item) xs)
kept-live now item [] = tt
kept-live now item (x ∷ xs) = ground (arith, kept-live now item xs)

-- From a list without copies, recording a status gives a list that is newest first, without
-- copies, and in which nothing has expired, whether or not the status itself had expired.
pub upsert-IsTidy :
    (items : List StatusItem) (now : ℕ) (item : StatusItem)
    → IsDistinct items
    → IsTidy now (upsert items now item)
unfolding upsert
upsert-IsTidy items now item d = record {
  ordered = sort_desc-IsDescending at_key _;
  distinct = sort_desc-IsDistinct _ distinct;
  live = All-sort_desc (λ s. now < s.expires_at) _ live;
}
  where
    kept : List StatusItem
    kept = filter (keeps now item) items

    kept-IsDistinct : IsDistinct kept
    kept-IsDistinct = filter-IsDistinct (keeps now item) items d

    distinct : IsDistinct (if is_live now item then kept ++ item ∷ [] else kept)
    distinct = elim (Bool-cases (is_live now item)) [
      | inl e ↦ rw e (append-IsDistinct kept item (kept-ne now item items) kept-IsDistinct)
      | inr e ↦ rw e kept-IsDistinct
    ]

    live : All (λ s. now < s.expires_at) (if is_live now item then kept ++ item ∷ [] else kept)
    live = elim (Bool-cases (is_live now item)) [
      | inl e ↦ rw e (
          All-append (λ s. now < s.expires_at) kept (item ∷ []) (kept-live now item items)
            (ground arith, tt))
      | inr e ↦ rw e (kept-live now item items)
    ]
