-- ===== src/Paging.antt =====
-- Keyset pagination, as the Search and List methods of backend/internal/catalog/postgres/repo.go and
-- backend/internal/library/postgres/repo.go do it: `WHERE key > cursor ORDER BY key LIMIT limit + 1`,
-- and in Go the cut to `limit` rows with the last key as the next cursor.
pub mod Sorted
pub mod Follow
pub mod Client
pub mod Texts
use smusic.Prelude.{
  ℕ, suc, ◌-◌, String, ◌≡◌, ◌≢◌, Bool, true, false, Option, none, some, List, [], ◌∷◌, length, ltb,
  if◌then◌else◌, str_eq, take, get_elem?, filter,
}

-- The database's strict order of the keys.
pub record Order (K : Type 0) : Type 0 where
  pub lt : K → K → Bool
  pub irrefl : (a : K) → lt a a ≡ false
  pub trans : (a b c : K) → lt a b ≡ true → lt b c ≡ true → lt a c ≡ true
  pub connected : (a b : K) → lt a b ≡ false → lt b a ≡ false → a ≡ b

-- A key as text: JSON in URL-safe base64. `none` is a text that does not decode.
pub record Codec (K : Type 0) : Type 0 where
  pub encode : K → String
  pub decode : String → Option K
  pub decode-encode : (k : K) → decode (encode k) ≡ some k
  pub encode-ne : (k : K) → encode k ≢ ""

pub record Page (A : Type 0) : Type 0 where
  pub items : List A
  pub next_cursor : String

module _ {K A : Type 0} (order : Order K) (codec : Codec K) (key : A → K) where
  abbrev pub insert : A → List A → List A
  insert x [] = x ∷ []
  insert x (y ∷ ys) =
      let rest = insert x ys in if order.lt (key x) (key y) then x ∷ y ∷ ys else y ∷ rest

  -- ORDER BY
  abbrev pub sort : List A → List A
  sort [] = []
  sort (x ∷ xs) = insert x (sort xs)

  abbrev pub last_cursor : Option A → String
  last_cursor none = ""
  last_cursor (some x) = codec.encode (key x)

  -- The cut of the limit + 1 rows that were fetched. A limit is positive.
  unfoldable pub cut : ℕ → List A → Page A
  cut limit items =
      if ltb limit (length items)
      then record {
        items = take limit items;
        next_cursor = last_cursor (get_elem? items (limit - 1));
      }
      else record { items = items; next_cursor = "" }

  -- The rows after a key, if there is one.
  abbrev pub after : Option K → List A → List A
  after none rows = rows
  after (some k) rows = filter (λ x. order.lt k (key x)) rows

  abbrev pub page_after : Option K → ℕ → List A → Page A
  page_after k limit rows = cut limit (take (suc limit) (sort (after k rows)))

  -- The start for the empty cursor; `none` for one that does not decode.
  unfoldable pub start_of : String → Option (Option K)
  start_of cursor =
      if str_eq cursor ""
      then some none
      else elim (codec.decode cursor) [ none ↦ none | some k ↦ some (some k) ]
