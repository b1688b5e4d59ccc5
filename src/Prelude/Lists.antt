-- ===== src/Prelude/Lists.antt =====
-- Lists measured by native numbers, and predicates on their elements.
use Prim.Native.Nat.{ℕ, zero, suc, ◌+◌}
use mathlib.Core.Path.{◌≡◌, refl}
use mathlib.Core.Bool.{true, Bool, false, ◌||◌}
use mathlib.Core.List.{List, [], ◌∷◌, ◌++◌}
use Prim.Native.String.{String}
use native.Mathlib.Omega.{arith}
use text.Mathlib.Text.{◌==◌}
use smusic.Prelude.Tests.{if◌then◌else◌, Bool-cases}
use mathlib.Core.Logic.{◌≢◌, inl, inr}
use text.Mathlib.TextEquality.{eq_iff}
use mathlib.Core.Option.{Option, none, some}

module _ {ℓ} {A : Type ℓ} where
  abbrev pub length : List A → ℕ
  length [] = 0
  length (x ∷ xs) = suc (length xs)

  pub length-append : (xs ys : List A) → length (xs ++ ys) ≡ length xs + length ys
  length-append [] ys = omega arith
  length-append (x ∷ xs) ys = omega (arith, length-append xs ys)

  abbrev pub any : (A → Bool) → List A → Bool
  any p [] = false
  any p (x ∷ xs) = p x || any p xs

  abbrev pub All {κ} : (A → Type κ) → List A → Type κ
  All P [] = Unit
  All P (x ∷ xs) = P x × All P xs

  pub All-append {κ} : (P : A → Type κ) (xs ys : List A) → All P xs → All P ys → All P (xs ++ ys)
  All-append P [] ys hx hy = hy
  All-append P (x ∷ xs) ys hx hy = (hx.0, All-append P xs ys hx.1 hy)

  pub All-map {κ μ} :
      (P : A → Type κ) (Q : A → Type μ) (f : (x : A) → P x → Q x) (xs : List A)
      → All P xs
      → All Q xs
  All-map P Q f [] h = tt
  All-map P Q f (x ∷ xs) h = (f x h.0, All-map P Q f xs h.1)

-- A key-value table as a function: `table[key] = value`.
abbrev pub assign {ℓ} : {A : Type ℓ} → (String → A) → String → A → String → A
assign table key value k = if key == k then value else table k

module _ {ℓ} {A : Type ℓ} where
  abbrev pub take : ℕ → List A → List A
  take zero xs = []
  take (suc n) [] = []
  take (suc n) (x ∷ xs) = x ∷ take n xs

  abbrev pub get_elem? : List A → ℕ → Option A
  get_elem? [] i = none
  get_elem? (x ∷ xs) zero = some x
  get_elem? (x ∷ xs) (suc i) = get_elem? xs i

  abbrev pub filter : (A → Bool) → List A → List A
  filter p [] = []
  filter p (x ∷ xs) = let rest = filter p xs in if p x then x ∷ rest else rest

  abbrev pub find : (A → Bool) → List A → Option A
  find p [] = none
  find p (x ∷ xs) = if p x then some x else find p xs

  pub All-filter {κ} :
      (P : A → Type κ) (p : A → Bool) (xs : List A) → All P xs → All P (filter p xs)
  All-filter P p [] h = tt
  All-filter P p (x ∷ xs) h = elim (Bool-cases (p x)) [
    | inl e ↦ rw e (h.0, All-filter P p xs h.1)
    | inr e ↦ rw e (All-filter P p xs h.1)
  ]

pub find-append :
    {A : Type 0} (q : A → Bool) (xs ys : List A) (x : A)
    → find q xs ≡ some x
    → find q (xs ++ ys) ≡ some x
find-append q [] ys x h = cc
find-append q (z ∷ xs) ys x h = ground (arith, h, find-append q xs ys x)

pub filter-append_none :
    {A : Type 0} (q : A → Bool) (xs : List A) (x : A)
    → q x ≡ false
    → filter q (xs ++ x ∷ []) ≡ filter q xs
filter-append_none q [] x h = ground (arith, h)
filter-append_none q (y ∷ xs) x h = ground (arith, filter-append_none q xs x h)

-- Taking away elements that the selection leaves out anyway.
pub filter-filter :
    {A : Type 0} (q r : A → Bool) (xs : List A)
    → ((x : A) → q x ≡ true → r x ≡ true)
    → filter q (filter r xs) ≡ filter q xs
filter-filter q r [] h = refl
filter-filter q r (x ∷ xs) h = ground (arith, filter-filter q r xs h, h x)

-- Texts that a test tells apart.
pub apart : (s t : String) → (s == t) ≡ false → s ≢ t
apart s t h e = ground (arith, h, (eq_iff s t).1 e)
