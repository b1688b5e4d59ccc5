-- ===== src/Auth/Service/Kept.antt =====
-- No call of the authentication service makes a used-up refresh token usable again.
use smusic.Auth.Service.Spent.{
  Spent, SpentRow, Spent-append, Spent-map, revoke_id-Tightens, revoke_user-Tightens,
  replace_id-Tightens,
}
use smusic.Effect.Keeps.{
  Post-world, frame_rules, Post, Keeps-raise, Keeps-catch, Keeps-store, Keeps-pure, Keeps, Any,
}
use smusic.Auth.Service
use smusic.Auth.Domain.{
  SignUpInput, LoginInput, Subject, user_not_found, identity_not_linked, invalid_refresh_token,
  Error, context, Auth, Identity, Device, DeviceInput, User, RefreshToken, World, Deps,
}
use smusic.Effect.{state_of, err, ok, Outcome, State, world_of, Env, ◌>>=◌}
use smusic.Prelude.{subst, sym, ℕ, String, ◌≡◌, Option, none, some, List, [], ◌∷◌, arith}
use smusic.Auth.Repo
use smusic.Auth.Repo.{has_hash, row_of, revoke_row, revoke_id, revoke_user, replace_id}
use smusic.Auth.Calls.{
  Call, serve, run, signs_up, logs_in, logs_in_with_oauth, refreshes, logs_out, logs_out_everywhere,
  asks_role, asks_me,
}

module _ (env : Env) (deps : Deps) (token_hash : String) where
  create-Spent : (u : User) → Keeps (Spent token_hash) Any (Repo.create env u)
  unfolding Repo.create ◌>>=◌
  create-Spent u = record { at = λ s h. ground (arith, h.row) }

  read-Spent :
      {A : Type 0} (m : Auth A)
      → ((s : State World) → (world_of (m s)).tokens ≡ s.world.tokens)
      → Keeps (Spent token_hash) Any m
  read-Spent {A} m same = record { at = λ s h. post (m s) (moved s h) }
    where
      moved : (s : State World) → Spent token_hash s.world → Spent token_hash (world_of (m s))
      moved s h = record {
        row = subst (λ rts. SpentRow (row_of token_hash rts)) (sym (same s)) h.row;
      }

      post :
          (o : Outcome World Error A)
          → Spent token_hash (world_of o)
          → Post (Spent token_hash) Any o
      post (ok a s) h = (h, tt)
      post (err e s) h = h

  ask-Spent :
      {A : Type 0} (text : String) (f : ℕ → Option A)
      → Keeps (Spent token_hash) Any (Service.ask env deps text f)
  unfolding Service.ask
  ask-Spent text f = read-Spent _ λ s. ground arith

  context-Spent :
      {A : Type 0} (text : String) (m : Auth A)
      → Keeps (Spent token_hash) Any m
      → Keeps (Spent token_hash) Any (context text m)
  context-Spent text m k = Keeps-catch m _ k (λ e. Keeps-raise _)

  get_by_email-Spent : (email : String) → Keeps (Spent token_hash) Any (Repo.get_by_email env email)
  unfolding Repo.get_by_email ◌>>=◌
  get_by_email-Spent email = read-Spent _ λ s. ground arith

  get_by_id-Spent : (id : String) → Keeps (Spent token_hash) Any (Repo.get_by_id env id)
  unfolding Repo.get_by_id ◌>>=◌
  get_by_id-Spent id = read-Spent _ λ s. ground arith

  provider-Spent :
      (p id : String) → Keeps (Spent token_hash) Any (Repo.get_user_id_by_provider env p id)
  unfolding Repo.get_user_id_by_provider ◌>>=◌
  provider-Spent p id = read-Spent _ λ s. ground arith

  get_by_hash-Spent : (h : String) → Keeps (Spent token_hash) Any (Repo.get_by_hash env h)
  unfolding Repo.get_by_hash ◌>>=◌
  get_by_hash-Spent h = read-Spent _ λ s. ground arith

  link-Spent : (i : Identity) → Keeps (Spent token_hash) Any (Repo.link env i)
  unfolding Repo.link ◌>>=◌
  link-Spent i = read-Spent _ λ s. ground arith

  upsert-Spent : (d : Device) → Keeps (Spent token_hash) Any (Repo.upsert env d)
  unfolding Repo.upsert ◌>>=◌
  upsert-Spent d = read-Spent _ λ s. ground arith

  store_token-Spent : (rt : RefreshToken) → Keeps (Spent token_hash) Any (Repo.store_token env rt)
  unfolding Repo.store_token ◌>>=◌
  store_token-Spent rt = record {
    at = λ s h. ground (arith, Spent-append token_hash s.world.tokens (rt ∷ []) h.row);
  }

  revoke-Spent : (id : String) (at : ℕ) → Keeps (Spent token_hash) Any (Repo.revoke env id at)
  unfolding Repo.revoke
  revoke-Spent id at =
      Keeps-store env _ _
        λ _ w h. record { row = Spent-map _ token_hash w.tokens (revoke_id-Tightens id at) h.row }

  mark_replaced-Spent :
      (old_id new_id : String) (at : ℕ)
      → Keeps (Spent token_hash) Any (Repo.mark_replaced env old_id new_id at)
  unfolding Repo.mark_replaced
  mark_replaced-Spent old_id new_id at = Keeps-store env _ _ λ _ w h. record {
    row = Spent-map _ token_hash w.tokens (replace_id-Tightens old_id new_id at) h.row;
  }

  revoke_all_for_user-Spent :
      (user_id : String) (at : ℕ)
      → Keeps (Spent token_hash) Any (Repo.revoke_all_for_user env user_id at)
  unfolding Repo.revoke_all_for_user
  revoke_all_for_user-Spent user_id at = Keeps-store env _ _ λ _ w h. record {
    row = Spent-map _ token_hash w.tokens (revoke_user-Tightens user_id at) h.row;
  }

  upsert_device-Spent :
      (user_id : String) (device : Option DeviceInput)
      → Keeps (Spent token_hash) Any (Service.upsert_device env deps user_id device)
  unfolding Service.upsert_device
  upsert_device-Spent user_id none = Keeps-pure "" tt
  upsert_device-Spent user_id (some device) =
      unfold Repo.upsert ◌>>=◌ in read-Spent _ λ s. ground arith

  issue_tokens-Spent :
      (user_id device_id : String)
      → Keeps (Spent token_hash) Any (Service.issue_tokens env deps user_id device_id)
  unfolding Service.issue_tokens Service.store_refresh_token
  issue_tokens-Spent user_id device_id =
      search (frame_rules, ask-Spent, context-Spent, store_token-Spent) depth 30

  issue_session-Spent :
      (user_id : String) (device : Option DeviceInput)
      → Keeps (Spent token_hash) Any (Service.issue_session env deps user_id device)
  unfolding Service.issue_session
  issue_session-Spent user_id device =
      search (frame_rules, upsert_device-Spent, issue_tokens-Spent) depth 30

  sign_up-Spent : (in_ : SignUpInput) → Keeps (Spent token_hash) Any (Service.sign_up env deps in_)
  unfolding Service.sign_up
  sign_up-Spent in_ =
      search (frame_rules, ask-Spent, context-Spent, create-Spent, issue_session-Spent) depth 30

  hide_missing-Spent : (e : Error) → Keeps (Spent token_hash) Any (Service.hide_missing env deps e)
  hide_missing-Spent user_not_found = Keeps-raise _
  hide_missing-Spent e = Keeps-raise _

  login-Spent : (in_ : LoginInput) → Keeps (Spent token_hash) Any (Service.login env deps in_)
  unfolding Service.login
  login-Spent in_ =
      search
        (
          frame_rules, ask-Spent, context-Spent, hide_missing-Spent, get_by_email-Spent,
          issue_session-Spent,
        )
        depth 30

  not_linked-Spent : (e : Error) → Keeps (Spent token_hash) Any (Service.not_linked env deps e)
  not_linked-Spent identity_not_linked = Keeps-pure _ tt
  not_linked-Spent e = Keeps-raise _

  provision-Spent :
      (p : String) (who : Subject) (name : String) (device : Option DeviceInput)
      → Keeps (Spent token_hash) Any (Service.provision env deps p who name device)
  unfolding Service.provision
  provision-Spent p who name device =
      search (frame_rules, context-Spent, create-Spent, link-Spent, issue_session-Spent) depth 30

  find_or_create-Spent :
      (p : String) (who : Subject) (name : String) (device : Option DeviceInput)
      (found : Option String)
      → Keeps (Spent token_hash) Any (Service.find_or_create env deps p who name device found)
  unfolding Service.find_or_create
  find_or_create-Spent p who name device none = provision-Spent p who name device
  find_or_create-Spent p who name device (some user_id) = issue_session-Spent user_id device

  login_with_oauth-Spent :
      (p token name : String) (device : Option DeviceInput)
      → Keeps (Spent token_hash) Any (Service.login_with_oauth env deps p token name device)
  unfolding Service.login_with_oauth
  login_with_oauth-Spent p token name device =
      search
        (
          frame_rules, ask-Spent, context-Spent, provider-Spent, not_linked-Spent,
          find_or_create-Spent,
        )
        depth 30

  rotate-Spent :
      (rt : RefreshToken) (time : ℕ)
      → Keeps (Spent token_hash) Any (Service.rotate env deps rt time)
  unfolding Service.rotate
  rotate-Spent rt time =
      search
        (
          frame_rules, context-Spent, revoke_all_for_user-Spent, issue_tokens-Spent,
          mark_replaced-Spent,
        )
        depth 30

  refresh-Spent : (p : String) → Keeps (Spent token_hash) Any (Service.refresh env deps p)
  unfolding Service.refresh
  refresh-Spent p = search (frame_rules, context-Spent, get_by_hash-Spent, rotate-Spent) depth 30

  unknown_is_gone-Spent :
      (e : Error) → Keeps (Spent token_hash) Any (Service.unknown_is_gone env deps e)
  unknown_is_gone-Spent invalid_refresh_token = Keeps-pure _ tt
  unknown_is_gone-Spent e = Keeps-raise _

  log_out_row-Spent :
      (row : Option RefreshToken) → Keeps (Spent token_hash) Any (Service.log_out_row env deps row)
  unfolding Service.log_out_row
  log_out_row-Spent none = Keeps-pure _ tt
  log_out_row-Spent (some rt) = search (frame_rules, context-Spent, revoke-Spent) depth 30

  logout-Spent : (p : String) → Keeps (Spent token_hash) Any (Service.logout env deps p)
  unfolding Service.logout
  logout-Spent p =
      search
        (frame_rules, context-Spent, get_by_hash-Spent, unknown_is_gone-Spent, log_out_row-Spent)
        depth 30

  logout_all-Spent : (u : String) → Keeps (Spent token_hash) Any (Service.logout_all env deps u)
  unfolding Service.logout_all
  logout_all-Spent u = search (frame_rules, context-Spent, revoke_all_for_user-Spent) depth 30

  no_role-Spent :
      (e : Error) → Keeps (Spent token_hash) Any (Service.unknown_has_no_role env deps e)
  no_role-Spent user_not_found = Keeps-pure _ tt
  no_role-Spent e = Keeps-raise _

  has_role-Spent :
      (u role : String) → Keeps (Spent token_hash) Any (Service.has_role env deps u role)
  unfolding Service.has_role
  has_role-Spent u role =
      search (frame_rules, context-Spent, get_by_id-Spent, no_role-Spent) depth 30

  me-Spent : (u : String) → Keeps (Spent token_hash) Any (Service.me env deps u)
  unfolding Service.me
  me-Spent u = context-Spent _ _ (get_by_id-Spent u)

  serve-Spent : (c : Call) → Keeps (Spent token_hash) Any (serve env deps c)
  unfolding serve
  serve-Spent (signs_up in_) = search (frame_rules, sign_up-Spent)
  serve-Spent (logs_in in_) = search (frame_rules, login-Spent)
  serve-Spent (logs_in_with_oauth p token name device) =
      search (frame_rules, login_with_oauth-Spent)
  serve-Spent (refreshes p) = search (frame_rules, refresh-Spent)
  serve-Spent (logs_out p) = logout-Spent p
  serve-Spent (logs_out_everywhere u) = logout_all-Spent u
  serve-Spent (asks_role u role) = search (frame_rules, has_role-Spent)
  serve-Spent (asks_me u) = search (frame_rules, me-Spent)

  pub run-Spent :
      (s : State World) (calls : List Call)
      → Spent token_hash s.world
      → Spent token_hash (run env deps s calls).world
  unfolding run
  run-Spent s [] h = h
  run-Spent s (c ∷ cs) h =
      run-Spent (state_of (serve env deps c s)) cs
        (Post-world (Spent token_hash) Any (serve env deps c s) ((serve-Spent c).at s h))
