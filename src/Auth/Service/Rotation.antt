-- ===== src/Auth/Service/Rotation.antt =====
-- Refresh of backend/internal/auth/service.go: one use for each refresh token, and what the rotation
-- leaves.
use smusic.Prelude.{
  sym, ap, subst, eq_iff, ◌∙◌, Option-cases, map, suc, ℕ, String, ◌≡◌, refl, true, false, ltb, none,
  some, List, [], ◌∷◌, ◌++◌, arith, str_eq, Bool-cases, inl, inr, eq_refl,
}
use smusic.Auth.Service
use smusic.Auth.Service.{ok, issue_tokens, Issued, refresh, rotate}
use smusic.Effect.{>>=-eq-ok, Env, State, IsErr, ◌>>=◌}
use smusic.Auth.Domain.{AuthResult, RefreshToken, World, Deps}
use smusic.Auth.Repo
use smusic.Auth.Repo.{has_hash, row_of, revoke_row, revoke_id, revoke_user, replace_id, conflicts}
use smusic.Auth.Service.Spent.{
  SpentRow, row_of-append, replace_id-Tightens, row_of-map, is_spent, Spent,
}
use smusic.Auth.Service.Kept.{run-Spent}
use smusic.Auth.Calls.{Call, run}

-- A row of the table keeps its hash to itself.
row_of-conflicts :
    (rt : RefreshToken) (rts : List RefreshToken)
    → conflicts rt rts ≡ false
    → row_of rt.token_hash rts ≡ none
row_of-conflicts rt [] h = refl
row_of-conflicts rt (r ∷ rts) h = ground (arith, row_of-conflicts rt rts)

row_of-append_new :
    (rt : RefreshToken) (rts : List RefreshToken)
    → conflicts rt rts ≡ false
    → row_of rt.token_hash (rts ++ rt ∷ []) ≡ some rt
row_of-append_new rt [] h = ground (arith, eq_refl rt.token_hash)
row_of-append_new rt (r ∷ rts) h = ground (arith, row_of-append_new rt rts)

conflicts-id :
    (rt old : RefreshToken) (rts : List RefreshToken) (token_hash : String)
    → conflicts rt rts ≡ false
    → row_of token_hash rts ≡ some old
    → str_eq old.id rt.id ≡ false
conflicts-id rt old [] token_hash h e = cc
conflicts-id rt old (r ∷ rts) token_hash h e = elim (Bool-cases (has_hash token_hash r)) [
  | inl same ↦ ground arith
  | inr other ↦ ground (arith, conflicts-id rt old rts token_hash)
]

-- A row that may be exchanged at `time`.
pub record IsLive (rt : RefreshToken) (time : ℕ) : Type 0 where
  pub current : is_spent rt ≡ false
  pub early : ltb time rt.expires_at ≡ true

module _ (env : Env) (deps : Deps) where
  pub refresh-Spent :
      (plaintext : String) (s : State World)
      → Spent (deps.hash_refresh_token plaintext) s.world
      → IsErr (refresh env deps plaintext s)
  unfolding refresh rotate is_spent Repo.get_by_hash Repo.revoke_all_for_user ◌>>=◌
  refresh-Spent plaintext s h = ground (arith, h.row)

  -- A refresh token that is used up is refused after any further calls.
  pub run-refresh :
      (plaintext : String) (s : State World) (calls : List Call)
      → Spent (deps.hash_refresh_token plaintext) s.world
      → IsErr (refresh env deps plaintext (run env deps s calls))
  run-refresh plaintext s calls h =
      refresh-Spent plaintext _ (run-Spent env deps (deps.hash_refresh_token plaintext) s calls h)

  -- The row that issue_tokens adds.
  pub record Issuance (user_id device_id : String) (i : Issued) (w v : World) : Type 0 where
    pub row : RefreshToken
    pub owner : row.user_id ≡ user_id
    pub device : row.device_id ≡ device_id
    pub hash : row.token_hash ≡ deps.hash_refresh_token i.result.refresh_token
    pub id : row.id ≡ i.id
    pub expiry : row.expires_at ≡ i.result.refresh_token_expires_at
    pub fresh : is_spent row ≡ false
    pub alone : conflicts row w.tokens ≡ false
    pub added : v.tokens ≡ w.tokens ++ row ∷ []
    pub subject : i.result.user_id ≡ user_id

  issue_tokens-Issuance :
      (user_id device_id : String) (s t : State World) (i : Issued)
      → issue_tokens env deps user_id device_id s ≡ ok i t
      → Issuance user_id device_id i s.world t.world
  unfolding issue_tokens Service.store_refresh_token Service.ask Repo.store_token is_spent ◌>>=◌
  issue_tokens-Issuance user_id device_id s t i h = record {
    row = record {
      id = i.id;
      user_id = user_id;
      device_id = device_id;
      token_hash = deps.hash_refresh_token i.result.refresh_token;
      issued_at = env.clock (suc (suc (suc (suc s.tick))));
      expires_at = i.result.refresh_token_expires_at;
      revoked_at = none;
      replaced_by = "";
    };
    owner = refl;
    device = refl;
    hash = refl;
    id = refl;
    expiry = refl;
    fresh = refl;
    alone = ground arith;
    added = ground arith;
    subject = ground arith;
  }

  -- The exchange of the token of the row `old` that left the world `v`: it issued `r`.
  pub record Exchange (old : RefreshToken) (time : ℕ) (r : AuthResult) (plaintext : String)
      (v : World) : Type 0 where
    pub unused : is_spent old ≡ false
    pub early : ltb time old.expires_at ≡ true
    pub spent : Spent (deps.hash_refresh_token plaintext) v
    pub row : RefreshToken
    pub stored : row_of (deps.hash_refresh_token r.refresh_token) v.tokens ≡ some row
    pub usable : is_spent row ≡ false
    pub expiry : row.expires_at ≡ r.refresh_token_expires_at
    pub owner : row.user_id ≡ old.user_id
    pub device : row.device_id ≡ old.device_id
    pub subject : r.user_id ≡ old.user_id

  found-refresh :
      (plaintext : String) (s t : State World) (r : AuthResult)
      → refresh env deps plaintext s ≡ ok r t
      → (old : RefreshToken) × (row_of (deps.hash_refresh_token plaintext) s.world.tokens
          ≡ some old)
        × (rotate env deps old
              (env.clock (suc s.tick))
              (record { tick = suc (suc s.tick); world = s.world })
            ≡ ok r t)
  unfolding refresh Repo.get_by_hash ◌>>=◌
  found-refresh plaintext s t r h =
      elim (Option-cases (row_of (deps.hash_refresh_token plaintext) s.world.tokens)) [
        | inl e ↦ absurd (ground arith)
        | inr (old, e) ↦ (old, e, ground arith)
      ]

  rotated-rotate :
      (old : RefreshToken) (time : ℕ) (s t : State World) (r : AuthResult)
      → rotate env deps old time s ≡ ok r t
      → (i : Issued) × (u : State World) × (issue_tokens env deps old.user_id old.device_id s
          ≡ ok i u)
        × (is_spent old ≡ false)
        × (ltb time old.expires_at ≡ true)
        × (t.world.tokens ≡ map (replace_id old.id i.id time) u.world.tokens)
        × (r ≡ i.result)
  unfolding rotate is_spent
  rotated-rotate old time s t r h = elim (Bool-cases (str_eq old.replaced_by "")) [
    | inl first ↦
        let (x, s1, e1, h1) = >>=-eq-ok _ _ s (rw first at h) in
        let (y, s2, e2, h2) = >>=-eq-ok _ _ s1 h1 in
        let (i, s3, e3, h3) = >>=-eq-ok _ _ s2 h2 in
        let (z, s4, e4, h4) = >>=-eq-ok _ _ s3 h3 in
        unfold ◌>>=◌ Repo.mark_replaced in
        (i, s3, ground arith, ground arith, ground arith, ground arith, ground arith)
    | inr again ↦ absurd (unfold ◌>>=◌ Repo.revoke_all_for_user in ground arith)
  ]

  exchanged :
      (old : RefreshToken) (time : ℕ) (plaintext : String) (w u v : World) (i : Issued)
      → row_of (deps.hash_refresh_token plaintext) w.tokens ≡ some old
      → Issuance old.user_id old.device_id i w u
      → is_spent old ≡ false
      → ltb time old.expires_at ≡ true
      → v.tokens ≡ map (replace_id old.id i.id time) u.tokens
      → Exchange old time i.result plaintext v
  exchanged old time plaintext w u v i found new unused early replaced = record {
    unused = unused;
    early = early;
    spent = record { row = subst SpentRow (sym old_row) replaced_old };
    row = replace_id old.id i.id time new.row;
    stored = new_row;
    usable = ap is_spent untouched ∙ new.fresh;
    expiry = ap (λ (rt : RefreshToken). rt.expires_at) untouched ∙ new.expiry;
    owner = ap (λ (rt : RefreshToken). rt.user_id) untouched ∙ new.owner;
    device = ap (λ (rt : RefreshToken). rt.device_id) untouched ∙ new.device;
    subject = new.subject;
  }
    where
      tokens : v.tokens ≡ map (replace_id old.id i.id time) (w.tokens ++ new.row ∷ [])
      tokens = replaced ∙ ap (map (replace_id old.id i.id time)) new.added

      old_row :
          row_of (deps.hash_refresh_token plaintext) v.tokens
          ≡ some (replace_id old.id i.id time old)
      old_row =
          ap (row_of (deps.hash_refresh_token plaintext)) tokens
          ∙ row_of-map _ (replace_id-Tightens old.id i.id time) _ _
              (row_of-append _ w.tokens (new.row ∷ []) found)

      replaced_old : is_spent (replace_id old.id i.id time old) ≡ true
      replaced_old = unfold is_spent in ground (arith, eq_refl old.id)

      new_row :
          row_of (deps.hash_refresh_token i.result.refresh_token) v.tokens
          ≡ some (replace_id old.id i.id time new.row)
      new_row =
          subst (λ h. row_of h v.tokens ≡ some (replace_id old.id i.id time new.row)) new.hash
            (ap (row_of new.row.token_hash) tokens
              ∙ row_of-map _ (replace_id-Tightens old.id i.id time) _ _
                  (row_of-append_new new.row w.tokens new.alone))

      untouched : replace_id old.id i.id time new.row ≡ new.row
      untouched = ground (
        arith,
        conflicts-id new.row old w.tokens _ new.alone found,
        eq_iff new.row.id old.id,
        eq_iff old.id new.row.id,
      )

  -- A refresh that succeeds exchanges a stored row that was neither replaced, revoked nor expired:
  -- afterwards the presented token is used up, and the token that was returned has a usable row for
  -- the same user and device, with the expiry that was returned.
  pub refresh-Exchange :
      (plaintext : String) (s t : State World) (r : AuthResult)
      → refresh env deps plaintext s ≡ ok r t
      → (old : RefreshToken) × (row_of (deps.hash_refresh_token plaintext) s.world.tokens
          ≡ some old)
        × Exchange old (env.clock (suc s.tick)) r plaintext t.world
  refresh-Exchange plaintext s t r h =
      let (old, found, h1) = found-refresh plaintext s t r h in
      let (i, u, issued, unused, early, replaced, same) = rotated-rotate old _ _ t r h1 in
      let new = issue_tokens-Issuance old.user_id old.device_id _ u i issued in
      (
        old,
        found,
        subst (λ x. Exchange old (env.clock (suc s.tick)) x plaintext t.world) (sym same)
            (exchanged old _ plaintext s.world u.world t.world i found new unused early replaced),
      )

  -- A refresh token is good for one exchange: once it has succeeded, the same token is refused after
  -- any further calls of the service.
  pub refresh-refresh :
      (plaintext : String) (s t : State World) (r : AuthResult) (calls : List Call)
      → refresh env deps plaintext s ≡ ok r t
      → IsErr (refresh env deps plaintext (run env deps t calls))
  refresh-refresh plaintext s t r calls h =
      run-refresh plaintext t calls (refresh-Exchange plaintext s t r h).2.spent
