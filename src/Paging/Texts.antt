-- ===== src/Paging/Texts.antt =====
-- An order and a cursor for pairs of texts, for the concrete runs.
use smusic.Prelude.{
  ◌∙◌, sym, ◌≡◌, ◌≢◌, refl, Bool, true, false, ◌&&◌, ◌||◌, Option, none, some, String, ltb, ◌==◌,
  arith, str_eq, if◌then◌else◌, eq_iff, ap,
}
use Prim.Native.String.{[], ◌∷◌}
use Prim.Native.Char.{Char, code}
use text.Mathlib.TextEquality.{Char-path}
use smusic.Paging.{Order, Codec}

-- Lexicographic order by the characters' numbers.
abbrev pub text_lt : String → String → Bool
text_lt [] [] = false
text_lt [] (d ∷ t) = true
text_lt (c ∷ s) [] = false
text_lt (c ∷ s) (d ∷ t) =
    let rest = text_lt s t in ltb (code c) (code d) || ((code c == code d) && rest)

pub text_lt_irrefl : (s : String) → text_lt s s ≡ false
text_lt_irrefl [] = refl
text_lt_irrefl (c ∷ s) = ground (arith, text_lt_irrefl s)

pub text_lt_trans : (r s t : String) → text_lt r s ≡ true → text_lt s t ≡ true → text_lt r t ≡ true
text_lt_trans [] [] t h k = cc
text_lt_trans [] (c ∷ s) [] h k = cc
text_lt_trans [] (c ∷ s) (d ∷ t) h k = refl
text_lt_trans (b ∷ r) [] t h k = cc
text_lt_trans (b ∷ r) (c ∷ s) [] h k = cc
text_lt_trans (b ∷ r) (c ∷ s) (d ∷ t) h k = ground (arith, h, k, text_lt_trans r s t)

pub text_lt-connected : (s t : String) → text_lt s t ≡ false → text_lt t s ≡ false → s ≡ t
text_lt-connected [] [] h k = refl
text_lt-connected [] (d ∷ t) h k = cc
text_lt-connected (c ∷ s) [] h k = cc
text_lt-connected (c ∷ s) (d ∷ t) h k =
    let same : c ≡ d = Char-path c d (ground (arith, h, k)) in
    let rest : s ≡ t = text_lt-connected s t (ground (arith, h, k)) (ground (arith, h, k)) in
    rw (same, rest) refl

-- A pair as one text: each character of the first text is marked.
abbrev pub join : String → String → String
join [] t = "." ∷ t
join (c ∷ s) t = "-" ∷ c ∷ join s t

pub record Pair : Type 0 where
  pub first : String
  pub second : String

abbrev grow : Char → Option Pair → Option Pair
grow c none = none
grow c (some p) = some (record { first = c ∷ p.first; second = p.second })

abbrev pub split : String → Option Pair
split [] = none
split (m ∷ []) = if code m == 46 then some (record { first = ""; second = "" }) else none
split (m ∷ c ∷ t) =
    let rest = grow c (split t) in
    if code m == 46 then some (record { first = ""; second = c ∷ t }) else rest

pub split-join : (s t : String) → split (join s t) ≡ some (record { first = s; second = t })
split-join [] [] = refl
split-join [] (c ∷ t) = refl
split-join (c ∷ s) t = ap (grow c) (split-join s t)

pub join-ne : (s t : String) → join s t ≢ ""
join-ne [] t e = cc
join-ne (c ∷ s) t e = cc

abbrev pub pair_lt : Pair → Pair → Bool
pair_lt a b = text_lt a.first b.first || (str_eq a.first b.first && text_lt a.second b.second)

pub pair_lt_irrefl : (a : Pair) → pair_lt a a ≡ false
pair_lt_irrefl a = ground (arith, text_lt_irrefl a.first, text_lt_irrefl a.second)

pub pair_lt_trans : (a b c : Pair) → pair_lt a b ≡ true → pair_lt b c ≡ true → pair_lt a c ≡ true
pair_lt_trans a b c h k = ground (
  arith,
  h,
  k,
  eq_iff a.first b.first,
  eq_iff b.first c.first,
  eq_iff a.first c.first,
  text_lt_trans a.first b.first c.first,
  text_lt_trans a.second b.second c.second,
)

pub pair_lt-connected : (a b : Pair) → pair_lt a b ≡ false → pair_lt b a ≡ false → a ≡ b
pair_lt-connected a b h k =
    let first : a.first ≡ b.first =
      text_lt-connected a.first b.first (ground (arith, h)) (ground (arith, k)) in
    let second : a.second ≡ b.second =
      text_lt-connected a.second b.second (ground (arith, h, (eq_iff a.first b.first).1 first))
        (ground (arith, k, (eq_iff b.first a.first).1 (sym first))) in
    rw (first, second) refl

abbrev pub pair_order : Order Pair
pair_order = record {
  lt = pair_lt;
  irrefl = pair_lt_irrefl;
  trans = pair_lt_trans;
  connected = pair_lt-connected;
}

-- Keys that are pairs under another name.
module _ {K : Type 0} (to : K → Pair) (from : Pair → K) (back : (k : K) → from (to k) ≡ k) where
  pub key_connected :
      (a b : K) → pair_order.lt (to a) (to b) ≡ false → pair_order.lt (to b) (to a) ≡ false → a ≡ b
  key_connected a b h k = sym (back a) ∙ ap from (pair_order.connected (to a) (to b) h k) ∙ back b

  abbrev pub key_order : Order K
  key_order = record {
    lt = λ a b. pair_order.lt (to a) (to b);
    irrefl = λ a. pair_order.irrefl (to a);
    trans = λ a b c. pair_order.trans (to a) (to b) (to c);
    connected = key_connected;
  }

  abbrev pub decoded : Option Pair → Option K
  decoded none = none
  decoded (some p) = some (from p)

  pub decoded-join : (k : K) → decoded (split (join (to k).first (to k).second)) ≡ some k
  decoded-join k = ap decoded (split-join (to k).first (to k).second) ∙ ap some (back k)

  abbrev pub key_cursor : Codec K
  key_cursor = record {
    encode = λ k. join (to k).first (to k).second;
    decode = λ s. decoded (split s);
    decode-encode = decoded-join;
    encode-ne = λ k. join-ne (to k).first (to k).second;
  }
