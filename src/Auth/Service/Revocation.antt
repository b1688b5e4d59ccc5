-- ===== src/Auth/Service/Revocation.antt =====
-- What ends sessions in backend/internal/auth/service.go: the reuse of a refresh token, Logout and
-- LogoutAll.
use smusic.Prelude.{
  suc, ℕ, String, ◌≡◌, ◌≢◌, ap, sym, true, false, some, List, map, arith, str_eq, Bool-cases, inl,
  inr, subst, eq_refl, eq_iff, ◌∙◌,
}
use smusic.Effect.{Env, State, IsErr, ok, err, ◌>>=◌, state_of, world_of}
use smusic.Auth.Domain.{RefreshToken, World, Deps, refresh_token_reused}
use smusic.Auth.Repo
use smusic.Auth.Repo.{row_of, revoke_row, revoke_id, revoke_user}
use smusic.Auth.Service
use smusic.Auth.Service.{refresh, logout, logout_all}
use smusic.Auth.Service.Spent.{
  is_spent, Spent, SpentRow, row_of-map, revoke_id-Tightens, revoke_user-Tightens,
}
use smusic.Auth.Service.Rotation.{run-refresh}
use smusic.Auth.Calls.{Call, run}

-- Every session of the user is ended, and no row of another user is touched.
pub record Ended (user_id : String) (w v : World) : Type 0 where
  pub own :
      (h : String) (rt : RefreshToken)
      → row_of h w.tokens ≡ some rt
      → rt.user_id ≡ user_id
      → Spent h v
  pub others :
      (h : String) (rt : RefreshToken)
      → row_of h w.tokens ≡ some rt
      → rt.user_id ≢ user_id
      → row_of h v.tokens ≡ some rt

revoked_own :
    (user_id : String) (time : ℕ) (rt : RefreshToken)
    → rt.user_id ≡ user_id
    → is_spent (revoke_user user_id time rt) ≡ true
unfolding is_spent
revoked_own user_id time rt e = ground (arith, (eq_iff rt.user_id user_id).1 e)

revoked_other :
    (user_id : String) (time : ℕ) (rt : RefreshToken)
    → rt.user_id ≢ user_id
    → revoke_user user_id time rt ≡ rt
revoked_other user_id time rt ne = elim (Bool-cases (str_eq rt.user_id user_id)) [
  | inl same ↦ absurd (ne ((eq_iff rt.user_id user_id).0 same))
  | inr other ↦ ground arith
]

revoke_user-Ended :
    (user_id : String) (time : ℕ) (w v : World)
    → v.tokens ≡ map (revoke_user user_id time) w.tokens
    → Ended user_id w v
revoke_user-Ended user_id time w v e = record {
  own = λ h rt found same. record {
    row = subst SpentRow (sym (row h rt found)) (revoked_own user_id time rt same);
  };
  others = λ h rt found ne. row h rt found ∙ ap some (revoked_other user_id time rt ne);
}
  where
    row :
        (h : String) (rt : RefreshToken)
        → row_of h w.tokens ≡ some rt
        → row_of h v.tokens ≡ some (revoke_user user_id time rt)
    row h rt found =
        ap (row_of h) e ∙ row_of-map _ (revoke_user-Tightens user_id time) h w.tokens found

module _ (env : Env) (deps : Deps) where
  -- A refresh token, not the empty text, whose row was already replaced is answered as reused, if
  -- no interaction fails, and all sessions of its user are ended; the rows of other users stay as
  -- they were.
  pub refresh-Ended :
      (plaintext : String) (s : State World) (rt : RefreshToken)
      → ((n : ℕ) → env.fault n ≡ false)
      → plaintext ≢ ""
      → row_of (deps.hash_refresh_token plaintext) s.world.tokens ≡ some rt
      → rt.replaced_by ≢ ""
      → (refresh env deps plaintext s
          ≡ err refresh_token_reused (state_of (refresh env deps plaintext s)))
        × Ended rt.user_id s.world (world_of (refresh env deps plaintext s))
  refresh-Ended plaintext s rt up given found replaced =
      let both = reused in (both.0, revoke_user-Ended rt.user_id _ s.world _ both.1)
    where
      reused :
          (refresh env deps plaintext s
            ≡ err refresh_token_reused (state_of (refresh env deps plaintext s)))
          × ((world_of (refresh env deps plaintext s)).tokens
              ≡ map (revoke_user rt.user_id (env.clock (suc s.tick))) s.world.tokens)
      reused =
          unfold refresh Service.rotate Repo.get_by_hash Repo.revoke_all_for_user ◌>>=◌ in
          ground
            (arith, up s.tick, up (suc (suc s.tick)), eq_iff plaintext "", eq_iff rt.replaced_by "")

  -- A logout from everywhere that succeeds ends all sessions of the user, and touches no row of
  -- another user.
  pub logout_all-Ended :
      (user_id : String) (s t : State World)
      → logout_all env deps user_id s ≡ ok tt t
      → Ended user_id s.world t.world
  logout_all-Ended user_id s t h =
      revoke_user-Ended user_id (env.clock s.tick) s.world t.world tokens
    where
      tokens : t.world.tokens ≡ map (revoke_user user_id (env.clock s.tick)) s.world.tokens
      tokens = unfold logout_all Repo.revoke_all_for_user ◌>>=◌ in ground arith

  -- After a logout that succeeded, the token that was presented, if it had a row, is refused after any
  -- further calls of the service.
  pub logout-refresh :
      (plaintext : String) (s t : State World) (rt : RefreshToken) (calls : List Call)
      → row_of (deps.hash_refresh_token plaintext) s.world.tokens ≡ some rt
      → logout env deps plaintext s ≡ ok tt t
      → IsErr (refresh env deps plaintext (run env deps t calls))
  logout-refresh plaintext s t rt calls found h = run-refresh env deps plaintext t calls (record {
    row =
        subst SpentRow
          (sym (
            ap (row_of (deps.hash_refresh_token plaintext)) tokens
            ∙ row_of-map _ (revoke_id-Tightens rt.id (env.clock (suc s.tick))) _ s.world.tokens
                found))
          revoked;
  })
    where
      tokens : t.world.tokens ≡ map (revoke_id rt.id (env.clock (suc s.tick))) s.world.tokens
      tokens = unfold logout Service.log_out_row Repo.get_by_hash Repo.revoke ◌>>=◌ in ground arith

      revoked : is_spent (revoke_id rt.id (env.clock (suc s.tick)) rt) ≡ true
      revoked = unfold is_spent in ground (arith, eq_refl rt.id)

  -- After a logout from everywhere that succeeded, every refresh token of the user is refused after
  -- any further calls of the service.
  pub logout_all-refresh :
      (user_id plaintext : String) (s t : State World) (rt : RefreshToken) (calls : List Call)
      → row_of (deps.hash_refresh_token plaintext) s.world.tokens ≡ some rt
      → rt.user_id ≡ user_id
      → logout_all env deps user_id s ≡ ok tt t
      → IsErr (refresh env deps plaintext (run env deps t calls))
  logout_all-refresh user_id plaintext s t rt calls found own h =
      run-refresh env deps plaintext t calls ((logout_all-Ended user_id s t h).own _ rt found own)
