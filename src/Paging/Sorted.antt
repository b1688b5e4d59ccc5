-- ===== src/Paging/Sorted.antt =====
-- Sorting by key, and what the rows after a key are.
use smusic.Prelude.{length, suc}
use smusic.Prelude.{
  ◌≡◌, refl, Bool, true, false, List, [], ◌∷◌, ◌++◌, All, All-filter, filter, Bool-cases, inl, inr,
  if◌then◌else◌, arith,
}
use smusic.Paging.{Order, Codec, insert, sort}

module _ {K A : Type 0} (order : Order K) (codec : Codec K) (key : A → K) where
  abbrev pub Above : A → A → Type 0
  Above x y = order.lt (key x) (key y) ≡ true

  -- Strictly increasing: no key comes twice.
  abbrev pub IsSorted : List A → Type 0
  IsSorted [] = Unit
  IsSorted (x ∷ xs) = All (Above x) xs × IsSorted xs

  -- The keys of the rows are pairwise different.
  abbrev pub Apart : A → A → Type 0
  Apart x y = key x ≡ key y → ⊥

  abbrev pub IsKeyed : List A → Type 0
  IsKeyed [] = Unit
  IsKeyed (x ∷ xs) = All (Apart x) xs × IsKeyed xs

  All-insert :
      (P : A → Type 0) (x : A) (ys : List A) → P x → All P ys → All P (insert order codec key x ys)
  All-insert P x [] p h = (p, tt)
  All-insert P x (y ∷ ys) p h = elim (Bool-cases (order.lt (key x) (key y))) [
    | inl e ↦ rw e (p, h)
    | inr e ↦ rw e (h.0, All-insert P x ys p h.1)
  ]

  length-insert : (x : A) (ys : List A) → length (insert order codec key x ys) ≡ suc (length ys)
  length-insert x [] = refl
  length-insert x (y ∷ ys) = ground (arith, length-insert x ys)

  pub length-sort : (xs : List A) → length (sort order codec key xs) ≡ length xs
  length-sort [] = refl
  length-sort (x ∷ xs) = omega (arith, length-insert x (sort order codec key xs), length-sort xs)

  All-sort : (P : A → Type 0) (xs : List A) → All P xs → All P (sort order codec key xs)
  All-sort P [] h = tt
  All-sort P (x ∷ xs) h = All-insert P x (sort order codec key xs) h.0 (All-sort P xs h.1)

  Above-trans : (x y : A) (zs : List A) → Above x y → All (Above y) zs → All (Above x) zs
  Above-trans x y [] h hs = tt
  Above-trans x y (z ∷ zs) h hs =
      (order.trans (key x) (key y) (key z) h hs.0, Above-trans x y zs h hs.1)

  insert-IsSorted :
      (x : A) (ys : List A)
      → All (Apart x) ys
      → IsSorted ys
      → IsSorted (insert order codec key x ys)
  insert-IsSorted x [] apart s = (tt, tt)
  insert-IsSorted x (y ∷ ys) apart s = elim (Bool-cases (order.lt (key x) (key y))) [
    | inl e ↦ rw e ((e, Above-trans x y ys e s.0), s)
    | inr e ↦
        rw e (All-insert (Above y) x ys (below y e apart.0) s.0, insert-IsSorted x ys apart.1 s.1)
  ]
    where
      below : (y : A) → order.lt (key x) (key y) ≡ false → Apart x y → Above y x
      below y e ne = elim (Bool-cases (order.lt (key y) (key x))) [
        | inl up ↦ up
        | inr down ↦ absurd (ne (order.connected (key x) (key y) e down))
      ]

  pub sort-IsSorted : (xs : List A) → IsKeyed xs → IsSorted (sort order codec key xs)
  sort-IsSorted [] h = tt
  sort-IsSorted (x ∷ xs) h =
      insert-IsSorted x (sort order codec key xs) (All-sort (Apart x) xs h.0) (sort-IsSorted xs h.1)

  insert_first : (x : A) (ys : List A) → All (Above x) ys → insert order codec key x ys ≡ x ∷ ys
  insert_first x [] h = refl
  insert_first x (y ∷ ys) h = rw h.0

  filter-insert :
      (p : A → Bool) (x : A) (ys : List A)
      → All (Apart x) ys
      → IsSorted ys
      → filter p (insert order codec key x ys)
        ≡ (if p x then insert order codec key x (filter p ys) else filter p ys)
  filter-insert p x [] apart s = refl
  filter-insert p x (y ∷ ys) apart s = elim (Bool-cases (order.lt (key x) (key y))) [
    | inl e ↦
        ground (
          arith,
          insert_first x (filter p ys) (All-filter (Above x) p ys (Above-trans x y ys e s.0)),
        )
    | inr e ↦ ground (arith, filter-insert p x ys apart.1 s.1)
  ]

  -- Selecting before sorting is selecting from the sorted rows.
  pub sort-filter :
      (p : A → Bool) (xs : List A)
      → IsKeyed xs
      → sort order codec key (filter p xs) ≡ filter p (sort order codec key xs)
  sort-filter p [] h = refl
  sort-filter p (x ∷ xs) h = ground (
    arith,
    sort-filter p xs h.1,
    filter-insert p x (sort order codec key xs) (All-sort (Apart x) xs h.0) (sort-IsSorted xs h.1),
  )

  filter-All : (p : A → Bool) (xs : List A) → All (λ x. p x ≡ true) xs → filter p xs ≡ xs
  filter-All p [] h = refl
  filter-All p (x ∷ xs) h = ground (arith, filter-All p xs h.1)

  -- In a sorted list, the rows after that of a key are the rest of the list.
  pub filter_after :
      (pre post : List A) (a : A)
      → IsSorted (pre ++ a ∷ post)
      → filter (λ x. order.lt (key a) (key x)) (pre ++ a ∷ post) ≡ post
  filter_after [] post a s =
      ground (arith, order.irrefl (key a), filter-All (λ x. order.lt (key a) (key x)) post s.0)
  filter_after (x ∷ pre) post a s =
      ground (arith, filter_after pre post a s.1, not_back (middle pre s.0))
    where
      middle : (ys : List A) → All (Above x) (ys ++ a ∷ post) → Above x a
      middle [] h = h.0
      middle (y ∷ ys) h = middle ys h.1

      not_back : Above x a → order.lt (key a) (key x) ≡ false
      not_back h = elim (Bool-cases (order.lt (key a) (key x))) [
        | inl back ↦ cc (order.trans (key a) (key x) (key a) back h, order.irrefl (key a))
        | inr e ↦ e
      ]

  -- A selection of rows with different keys.
  pub filter-IsKeyed : (p : A → Bool) (xs : List A) → IsKeyed xs → IsKeyed (filter p xs)
  filter-IsKeyed p [] h = tt
  filter-IsKeyed p (x ∷ xs) h = elim (Bool-cases (p x)) [
    | inl e ↦ rw e (All-filter (Apart x) p xs h.0, filter-IsKeyed p xs h.1)
    | inr e ↦ rw e (filter-IsKeyed p xs h.1)
  ]
