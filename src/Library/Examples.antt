-- ===== src/Library/Examples.antt =====
-- A database and floats for the concrete runs of the library.
use smusic.Prelude.{
  leb, if◌then◌else◌, subst, sym, All-map, Bool-cases, inl, inr, not, ℕ, zero, suc, ◌≤◌, ◌+◌, ◌/◌,
  String, str_append, ◌≡◌, refl, Bool, true, false, some, List, [], ◌∷◌, All, arith, str_eq,
}
use Prim.Native.String.{len}
use text.Mathlib.TextPositions.{len-append}
use smusic.Effect.{Env, State}
use smusic.Paging.{Order}
use smusic.Paging.Texts.{
  Pair, key_cursor, text_lt, text_lt_irrefl, text_lt_trans, text_lt-connected,
}
use smusic.Library.Domain.{World, Deps, PlaylistTrack, SavedKey}
use smusic.Library.Positions.{Arithmetic}

abbrev pub name : ℕ → String
name zero = ""
name (suc n) = str_append "i" (name n)

abbrev pub env : Env
env = record { clock = λ n. n; fault = λ _. false; fresh_id = name }

-- The entry with the least position in front.
abbrev pub front : PlaylistTrack → List PlaylistTrack → List PlaylistTrack
front x [] = x ∷ []
front x (y ∷ ys) = if leb x.position y.position then x ∷ y ∷ ys else y ∷ x ∷ ys

abbrev pub least_first : List PlaylistTrack → List PlaylistTrack
least_first [] = []
least_first (x ∷ xs) = front x (least_first xs)

front-ne : (x : PlaylistTrack) (ys : List PlaylistTrack) → front x ys ≡ [] → ⊥
front-ne x [] h = cc
front-ne x (y ∷ ys) h = ground (arith, h)

pub least_first-nil : (xs : List PlaylistTrack) → least_first xs ≡ [] → xs ≡ []
least_first-nil [] h = refl
least_first-nil (x ∷ xs) h = absurd (front-ne x (least_first xs) h)

front-least :
    (x : PlaylistTrack) (xs ys : List PlaylistTrack)
    → least_first xs ≡ ys
    → ((y : PlaylistTrack) (zs : List PlaylistTrack)
        → least_first xs ≡ y ∷ zs
        → All (λ row. y.position ≤ row.position) xs)
    → (f : PlaylistTrack) (r : List PlaylistTrack) → front x ys ≡ f ∷ r
    → All (λ row. f.position ≤ row.position) (x ∷ xs)
front-least x xs [] e ih f r h = (
  ground (arith, h),
  subst (All (λ row. f.position ≤ row.position)) (sym (least_first-nil xs e)) tt,
)
front-least x xs (y ∷ ys) e ih f r h = elim (Bool-cases (leb x.position y.position)) [
  | inl le ↦
      let same : f.position ≡ x.position = ground (arith, h, le) in
      (omega (arith, same), All-map _ _ (λ row k. ground (arith, same, le, k)) xs (ih y ys e))
  | inr gt ↦
      let same : f.position ≡ y.position = ground (arith, h, gt) in
      (ground (arith, same, gt), All-map _ _ (λ row k. omega (arith, same, k)) xs (ih y ys e))
]

pub least_first-least :
    (xs : List PlaylistTrack) (f : PlaylistTrack) (r : List PlaylistTrack)
    → least_first xs ≡ f ∷ r
    → All (λ row. f.position ≤ row.position) xs
least_first-least [] f r h = cc
least_first-least (x ∷ xs) f r h =
    front-least x xs (least_first xs) refl (λ y zs e. least_first-least xs y zs e) f r h

All-front :
    (test : PlaylistTrack → Bool) (x : PlaylistTrack) (ys : List PlaylistTrack)
    → test x ≡ true
    → All (λ row. test row ≡ true) ys
    → All (λ row. test row ≡ true) (front x ys)
All-front test x [] h all = (h, tt)
All-front test x (y ∷ ys) h all = elim (Bool-cases (leb x.position y.position)) [
  | inl le ↦ rw le (h, all)
  | inr gt ↦ rw gt (all.0, (h, all.1))
]

All-least_first :
    (test : PlaylistTrack → Bool) (xs : List PlaylistTrack)
    → All (λ row. test row ≡ true) xs
    → All (λ row. test row ≡ true) (least_first xs)
All-least_first test [] all = tt
All-least_first test (x ∷ xs) all =
    All-front test x (least_first xs) all.0 (All-least_first test xs all.1)

pub least_first-among :
    (xs : List PlaylistTrack) (f : PlaylistTrack) (r : List PlaylistTrack)
    (test : PlaylistTrack → Bool)
    → least_first xs ≡ f ∷ r
    → All (λ row. test row ≡ true) xs
    → test f ≡ true
least_first-among xs f r test h all =
    (subst (All (λ row. test row ≡ true)) h (All-least_first test xs all)).0

-- A saved track's key as a pair of texts: the time in unary.
abbrev pub to_pair : SavedKey → Pair
to_pair k = record { first = name k.added_at; second = k.track_id }

abbrev pub of_pair : Pair → SavedKey
of_pair p = record { added_at = len p.first; track_id = p.second }

len-name : (n : ℕ) → len (name n) ≡ n
len-name zero = refl
len-name (suc n) = omega (arith, len-append "i" (name n), len-name n)

pub back : (k : SavedKey) → of_pair (to_pair k) ≡ k
back k = rw (len-name k.added_at) refl

-- Identifiers by their text.
abbrev pub text_order : Order String
text_order = record {
  lt = text_lt;
  irrefl = text_lt_irrefl;
  trans = text_lt_trans;
  connected = text_lt-connected;
}

abbrev pub deps : Deps
deps = record {
  track_exists = λ _ id. some (not (str_eq id "x"));
  is_user = λ _. true;
  is_track = λ _ id. not (str_eq id "x");
  trim_space = λ t. t;
  half = λ x. x / 2;
  add = λ x gap. x + 1;
  by_created_at = λ xs. xs;
  by_position = least_first;
  by_position-nil = least_first-nil;
  by_position-least = least_first-least;
  by_position-among = least_first-among;
  track_id_order = text_order;
  saved_cursor = key_cursor to_pair of_pair back;
}

pub floats : Arithmetic deps
floats = record { half_lt = λ x h k. omega (arith, h); add_gt = λ x h. omega arith }

abbrev pub start : State World
start = record { tick = 1; world = record { playlists = []; entries = []; saved = [] } }
