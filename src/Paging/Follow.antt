-- ===== src/Paging/Follow.antt =====
-- A client that follows the cursors from the empty one gets every row, once and in order.
use smusic.Prelude.{
  subst, sym, ◌∙◌, filter, ap, length-append, Bool-cases, inl, inr, ltb→lt, ◌-◌, zero, eq_iff, ℕ,
  suc, ◌<◌, String, ◌≡◌, refl, true, false, Option, none, some, List, [], ◌∷◌, ◌++◌, length,
  if◌then◌else◌, str_eq, take, get_elem?, arith, ltb,
}
use smusic.Paging.{Order, Codec, Page, sort, after, page_after, start_of, cut}
use smusic.Paging.Sorted.{IsKeyed, IsSorted, sort-IsSorted, sort-filter, filter_after}

-- The pieces of a list that is longer than n + 1: n elements, the next two, and the rest.
data Split {A : Type 0} : ℕ → List A → Type 0 where
  piece : (front : List A) (a b : A) (rest : List A) → Split (length front) (front ++ a ∷ b ∷ rest)

minus_one : (n : ℕ) → suc n - 1 ≡ n
minus_one n = omega arith

module _ {A : Type 0} where
  grow : (n : ℕ) (x : A) (ys : List A) → Split n ys → Split (suc n) (x ∷ ys)
  grow n x ys (piece front a b rest) = piece (x ∷ front) a b rest

  split : (n : ℕ) (xs : List A) → suc n < length xs → Split n xs
  split n [] h = absurd (omega (arith, h))
  split n (x ∷ []) h = absurd (omega (arith, h))
  split zero (x ∷ y ∷ xs) h = piece [] x y xs
  split (suc n) (x ∷ y ∷ xs) h = grow n x (y ∷ xs) (split n (y ∷ xs) (omega (arith, h)))

  take_all : (n : ℕ) (xs : List A) → length xs < suc n → take n xs ≡ xs
  take_all zero [] h = refl
  take_all (suc n) [] h = refl
  take_all zero (x ∷ xs) h = absurd (omega (arith, h))
  take_all (suc n) (x ∷ xs) h = ap (λ ys. x ∷ ys) (take_all n xs (omega (arith, h)))

  -- What the fetch of one row too many finds, and what the cut makes of it.
  fetch_front :
      (front : List A) (a b : A) (rest : List A)
      → take (suc (suc (length front))) (front ++ a ∷ b ∷ rest) ≡ front ++ a ∷ b ∷ []
  fetch_front [] a b rest = refl
  fetch_front (x ∷ front) a b rest = ap (λ ys. x ∷ ys) (fetch_front front a b rest)

  cut_front :
      (front : List A) (a b : A) → take (suc (length front)) (front ++ a ∷ b ∷ []) ≡ front ++ a ∷ []
  cut_front [] a b = refl
  cut_front (x ∷ front) a b = ap (λ ys. x ∷ ys) (cut_front front a b)

  get_front : (front rest : List A) (a : A) → get_elem? (front ++ a ∷ rest) (length front) ≡ some a
  get_front [] rest a = refl
  get_front (x ∷ front) rest a = get_front front rest a

  append_assoc : (xs ys zs : List A) → (xs ++ ys) ++ zs ≡ xs ++ (ys ++ zs)
  append_assoc [] ys zs = refl
  append_assoc (x ∷ xs) ys zs = ap (λ us. x ∷ us) (append_assoc xs ys zs)

  long_front :
      (front : List A) (a b : A) → ltb (suc (length front)) (length (front ++ a ∷ b ∷ [])) ≡ true
  long_front front a b = ground (arith, length-append front (a ∷ b ∷ []))

abbrev pub append_rest : {A : Type 0} → List A → Option (List A) → Option (List A)
append_rest items none = none
append_rest items (some rest) = some (items ++ rest)

module _ {K A : Type 0} (order : Order K) (codec : Codec K) (key : A → K) where
  abbrev pub go_on : Page A → Option (List A) → Option (List A)
  go_on page rest =
      if str_eq page.next_cursor "" then some page.items else append_rest page.items rest

  -- The rows come in pages of at most `limit`, from a cursor on, until a page has no next cursor.
  abbrev pub collect : ℕ → List A → ℕ → String → Option (List A)
  collect zero rows limit cursor = none
  collect (suc fuel) rows limit cursor = elim (start_of order codec key cursor) [
    | none ↦ none
    | some k ↦
        let page = page_after order codec key k limit rows in
        go_on page (collect fuel rows limit page.next_cursor)
  ]

  collect-suc :
      (fuel limit : ℕ) (rows : List A) (cursor : String) (k : Option K) (page : Page A)
      → start_of order codec key cursor ≡ some k
      → page_after order codec key k limit rows ≡ page
      → collect (suc fuel) rows limit cursor ≡ go_on page (collect fuel rows limit page.next_cursor)
  collect-suc fuel limit rows cursor k page start e = rw (collect, start, e) refl

  cut_more :
      (front : List A) (a b : A) (rest : List A)
      → cut order codec key
          (suc (length front))
          (take (suc (suc (length front))) (front ++ a ∷ b ∷ rest))
        ≡ record { items = front ++ a ∷ []; next_cursor = codec.encode (key a) }
  unfolding cut
  cut_more front a b rest = rw (fetch_front front a b rest) (
      rw (long_front front a b)
        (rw (cut_front front a b, minus_one (length front), get_front front (b ∷ []) a) refl))

  cut_last :
      (n : ℕ) (rows : List A)
      → length rows < suc n
      → cut order codec key n (take (suc n) rows) ≡ record { items = rows; next_cursor = "" }
  unfolding cut
  cut_last n rows h = rw (take_all (suc n) rows (omega (arith, h))) (ground arith)

  start-encode : (k : K) → start_of order codec key (codec.encode k) ≡ some (some k)
  unfolding start_of
  start-encode k =
      ground (arith, codec.decode-encode k, codec.encode-ne k, eq_iff (codec.encode k) "")

  length-front :
      (front : List A) (a b : A) (rest : List A) (f : ℕ)
      → length (front ++ a ∷ b ∷ rest) < suc f
      → length (b ∷ rest) < f
  length-front front a b rest f h = omega (arith, h, length-append front (a ∷ b ∷ rest))

  -- From any cursor on, the client collects the rows that are sorted after it.
  abbrev Collects : ℕ → ℕ → List A → Type 0
  Collects fuel limit rows =
      (pre remaining : List A) (cursor : String) (k : Option K)
      → start_of order codec key cursor ≡ some k
      → sort order codec key (after order codec key k rows) ≡ remaining
      → pre ++ remaining ≡ sort order codec key rows
      → length remaining < fuel
      → collect fuel rows limit cursor ≡ some remaining

  page-rest :
      (limit : ℕ) (rows remaining : List A) (k : Option K)
      → sort order codec key (after order codec key k rows) ≡ remaining
      → page_after order codec key k limit rows
        ≡ cut order codec key limit (take (suc limit) remaining)
  page-rest limit rows remaining k sorted =
      ap (λ xs. cut order codec key limit (take (suc limit) xs)) sorted

  go_on-last :
      (items : List A) (rest : Option (List A))
      → go_on (record { items = items; next_cursor = "" }) rest ≡ some items
  go_on-last items rest = refl

  encode-eq : (k : K) → str_eq (codec.encode k) "" ≡ false
  encode-eq k = ground (arith, eq_iff (codec.encode k) "", codec.encode-ne k)

  go_on-more :
      (front rest : List A) (a : A)
      → go_on (record { items = front ++ a ∷ []; next_cursor = codec.encode (key a) }) (some rest)
        ≡ some (front ++ a ∷ rest)
  go_on-more front rest a = rw (encode-eq (key a)) (ap some (append_assoc front (a ∷ []) rest))

  -- What is sorted after the row of a cursor is the rest of the sorted rows.
  after-rest :
      (rows pre rest : List A) (a : A)
      → IsKeyed order codec key rows
      → pre ++ a ∷ rest ≡ sort order codec key rows
      → sort order codec key (after order codec key (some (key a)) rows) ≡ rest
  after-rest rows pre rest a keyed whole =
      sort-filter order codec key (λ x. order.lt (key a) (key x)) rows keyed
      ∙ ap (filter (λ x. order.lt (key a) (key x))) (sym whole)
      ∙ filter_after order codec key pre rest a
          (subst (IsSorted order codec key) (sym whole) (sort-IsSorted order codec key rows keyed))

  collect-front :
      (fuel n : ℕ) (rows pre remaining : List A) (cursor : String) (k : Option K)
      → Collects fuel (suc n) rows
      → IsKeyed order codec key rows
      → Split n remaining
      → start_of order codec key cursor ≡ some k
      → sort order codec key (after order codec key k rows) ≡ remaining
      → pre ++ remaining ≡ sort order codec key rows
      → length remaining < suc fuel
      → collect (suc fuel) rows (suc n) cursor ≡ some remaining
  collect-front fuel n rows pre remaining cursor k ih keyed (piece front a b rest) start sorted
        whole h =
      collect-suc fuel (suc (length front)) rows cursor k _ start
        (page-rest (suc (length front)) rows _ k sorted ∙ cut_more front a b rest)
      ∙ ap (go_on (record { items = front ++ a ∷ []; next_cursor = codec.encode (key a) })) onward
      ∙ go_on-more front (b ∷ rest) a
    where
      regroup : (pre ++ (front ++ a ∷ [])) ++ b ∷ rest ≡ pre ++ (front ++ a ∷ b ∷ rest)
      regroup =
          append_assoc pre (front ++ a ∷ []) (b ∷ rest)
          ∙ ap (λ xs. pre ++ xs) (append_assoc front (a ∷ []) (b ∷ rest))

      onward : collect fuel rows (suc (length front)) (codec.encode (key a)) ≡ some (b ∷ rest)
      onward =
          ih (pre ++ (front ++ a ∷ [])) (b ∷ rest) (codec.encode (key a)) (some (key a))
            (start-encode (key a))
            (after-rest rows (pre ++ front) (b ∷ rest) a keyed
              (append_assoc pre front (a ∷ b ∷ rest) ∙ whole))
            (regroup ∙ whole) (length-front front a b rest fuel h)

  collect_rest :
      (fuel n : ℕ) (rows : List A) → IsKeyed order codec key rows → Collects fuel (suc n) rows
  collect_rest zero n rows keyed pre remaining cursor k start sorted whole h =
      absurd (omega (arith, h))
  collect_rest (suc fuel) n rows keyed pre remaining cursor k start sorted whole h =
      elim (Bool-cases (ltb (suc n) (length remaining))) [
        | inl more ↦
            collect-front fuel n rows pre remaining cursor k (collect_rest fuel n rows keyed) keyed
              (split n remaining (ltb→lt _ _ more)) start sorted whole h
        | inr last ↦ collect-suc fuel (suc n) rows cursor k _ start (
            page-rest (suc n) rows remaining k sorted
            ∙ cut_last (suc n) remaining (ground (arith, last)))
      ]

  -- With more fuel than there are rows.
  pub collect-sort :
      (fuel limit : ℕ) (rows : List A)
      → IsKeyed order codec key rows
      → 0 < limit
      → length (sort order codec key rows) < fuel
      → collect fuel rows limit "" ≡ some (sort order codec key rows)
  unfolding start_of
  collect-sort fuel zero rows keyed h enough = absurd (omega (arith, h))
  collect-sort fuel (suc n) rows keyed h enough =
      collect_rest fuel n rows keyed [] (sort order codec key rows) "" none refl refl refl enough
