-- ===== src/Auth/Service/Spent.antt =====
-- Refresh tokens that are used up: replaced by a newer one, or revoked (Refresh, Logout and LogoutAll
-- of backend/internal/auth/service.go).

use smusic.Prelude.{
  Bool-cases, Option-cases, inl, inr, subst, sym, ℕ, String, ◌≡◌, Bool, true, false, not, ◌||◌,
  Option, none, some, List, [], ◌∷◌, ◌++◌, map, arith, str_eq,
}
use smusic.Auth.Domain.{RefreshToken, World}
use smusic.Auth.Repo.{has_hash, row_of, revoke_id, revoke_user, replace_id}

unfoldable pub is_spent : RefreshToken → Bool
is_spent rt = not (str_eq rt.replaced_by "") || elim rt.revoked_at [ none ↦ false | some _ ↦ true ]

abbrev pub SpentRow : Option RefreshToken → Type 0
SpentRow none = ⊥
SpentRow (some rt) = is_spent rt ≡ true

-- The token whose hash is `token_hash` has a row, and it is used up.
pub record Spent (token_hash : String) (w : World) : Type 0 where
  pub row : SpentRow (row_of token_hash w.tokens)

-- An update of rows that keeps their hashes and uses up none less than before.
pub record Tightens (f : RefreshToken → RefreshToken) : Type 0 where
  pub hash : (rt : RefreshToken) → (f rt).token_hash ≡ rt.token_hash
  pub spent : (rt : RefreshToken) → is_spent rt ≡ true → is_spent (f rt) ≡ true

pub revoke_id-Tightens : (id : String) (at : ℕ) → Tightens (revoke_id id at)
unfolding is_spent
revoke_id-Tightens id at = record { hash = λ rt. ground arith; spent = λ rt h. ground arith }

pub revoke_user-Tightens : (user_id : String) (at : ℕ) → Tightens (revoke_user user_id at)
unfolding is_spent
revoke_user-Tightens user_id at = record { hash = λ rt. ground arith; spent = λ rt h. ground arith }

pub replace_id-Tightens : (old_id new_id : String) (at : ℕ) → Tightens (replace_id old_id new_id at)
unfolding is_spent
replace_id-Tightens old_id new_id at = record {
  hash = λ rt. ground arith;
  spent = λ rt h. ground arith;
}

pub row_of-append :
    (token_hash : String) (rts more : List RefreshToken) {rt : RefreshToken}
    → row_of token_hash rts ≡ some rt
    → row_of token_hash (rts ++ more) ≡ some rt
row_of-append token_hash [] more h = cc
row_of-append token_hash (r ∷ rts) more h = elim (Bool-cases (has_hash token_hash r)) [
  | inl e ↦ ground arith
  | inr e ↦ ground (arith, row_of-append token_hash rts more (rw e at h))
]

module _ (f : RefreshToken → RefreshToken) (tight : Tightens f) (token_hash : String) where
  pub row_of-map :
      (rts : List RefreshToken) {rt : RefreshToken}
      → row_of token_hash rts ≡ some rt
      → row_of token_hash (map f rts) ≡ some (f rt)
  row_of-map [] h = cc
  row_of-map (r ∷ rts) h = elim (Bool-cases (has_hash token_hash r)) [
    | inl e ↦ ground (arith, tight.hash r)
    | inr e ↦ ground (arith, row_of-map rts (rw e at h), tight.hash r)
  ]

pub Spent-append :
    (token_hash : String) (rts more : List RefreshToken)
    → SpentRow (row_of token_hash rts)
    → SpentRow (row_of token_hash (rts ++ more))
Spent-append token_hash rts more h = elim (Option-cases (row_of token_hash rts)) [
  | inl e ↦ absurd (rw e at h)
  | inr (rt, e) ↦ subst SpentRow (sym (row_of-append token_hash rts more e)) (rw e at h)
]

pub Spent-map :
    (f : RefreshToken → RefreshToken) (token_hash : String) (rts : List RefreshToken)
    → Tightens f
    → SpentRow (row_of token_hash rts)
    → SpentRow (row_of token_hash (map f rts))
Spent-map f token_hash rts tight h = elim (Option-cases (row_of token_hash rts)) [
  | inl e ↦ absurd (rw e at h)
  | inr (rt, e) ↦
      subst SpentRow (sym (row_of-map f tight token_hash rts e)) (tight.spent rt (rw e at h))
]
