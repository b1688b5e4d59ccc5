-- ===== src/Auth/Service.antt =====
-- backend/internal/auth/service.go
pub mod Spent
pub mod Kept
pub mod Rotation
pub mod Revocation
pub mod Credentials
use smusic.Prelude.{
  ℕ, ◌+◌, String, Bool, true, false, ◌||◌, not, Option, none, some, ltb, if◌then◌else◌, str_eq,
}
use Prim.Native.String.{len}
use smusic.Effect.{Env, ok, err, bump, pure, raise, catch, ◌>>=◌, ◌>>◌, guard, now, new_id}
use smusic.Auth.Domain.{
  User, RefreshToken, Error, DeviceInput, SignUpInput, LoginInput, AuthResult, Subject, Deps, Auth,
  context, invalid_input, invalid_credentials, user_not_found, identity_not_linked,
  invalid_refresh_token, refresh_token_expired, refresh_token_revoked, refresh_token_reused, failed,
  user_status_active, role_user,
}
use smusic.Auth.Repo

-- The new session, and the id of its refresh token's row.
pub record Issued : Type 0 where
  pub result : AuthResult
  pub id : String

module _ (env : Env) (deps : Deps) where
  -- A dependency that answers or fails.
  unfoldable pub ask : {A : Type 0} → String → (ℕ → Option A) → Auth A
  ask text f s = elim (f s.tick) [ none ↦ err (failed text) (bump s) | some a ↦ ok a (bump s) ]

  unfoldable pub normalize_email : String → String
  normalize_email email = deps.to_lower (deps.trim_space email)

  unfoldable pub upsert_device : String → Option DeviceInput → Auth String
  upsert_device user_id none = pure ""
  upsert_device user_id (some device) = if str_eq device.platform "" then pure "" else do
    time ← now env
    context "auth: upsert device" (
        Repo.upsert env (record {
          id = "";
          user_id = user_id;
          platform = device.platform;
          push_token = device.push_token;
          app_version = device.app_version;
          last_seen_at = time;
        }))

  unfoldable pub store_refresh_token : String → String → String → ℕ → Auth String
  store_refresh_token user_id device_id token_hash expires_at = do
    id ← new_id env
    time ← now env
    context "auth: store refresh token" (
        Repo.store_token env (record {
          id = id;
          user_id = user_id;
          device_id = device_id;
          token_hash = token_hash;
          issued_at = time;
          expires_at = expires_at;
          revoked_at = none;
          replaced_by = "";
        }))
    pure id

  unfoldable pub issue_tokens : String → String → Auth Issued
  issue_tokens user_id device_id = do
    access ← ask "auth: sign access token" (λ n. deps.sign n user_id)
    refresh_plain ← ask "auth: generate refresh token" deps.new_refresh_token
    time ← now env
    id ←
        store_refresh_token user_id device_id (deps.hash_refresh_token refresh_plain)
          (time + deps.refresh_ttl)
    pure (record {
      result = record {
        user_id = user_id;
        access_token = access.token;
        access_token_expires_at = access.expires_at;
        refresh_token = refresh_plain;
        refresh_token_expires_at = time + deps.refresh_ttl;
      };
      id = id;
    })

  unfoldable pub issue_session : String → Option DeviceInput → Auth AuthResult
  issue_session user_id device = do
    device_id ← upsert_device user_id device
    issued ← issue_tokens user_id device_id
    pure issued.result

  unfoldable pub sign_up : SignUpInput → Auth AuthResult
  sign_up in_ = do
    let email = normalize_email in_.email
    guard (not (str_eq email "")) (invalid_input "email is required")
    guard (not (ltb (len in_.password) 8)) (invalid_input "password must be at least 8 characters")
    let display_name = deps.trim_space in_.display_name
    guard (not (str_eq display_name "")) (invalid_input "display_name is required")
    hash ← ask "auth: hash password" (λ n. deps.hash_password n in_.password)
    time ← now env
    id ← new_id env
    context "auth: create user" (
        Repo.create env (record {
          id = id;
          email = email;
          password_hash = hash;
          display_name = display_name;
          handle = "";
          status = user_status_active;
          role = role_user;
          created_at = time;
          updated_at = time;
        }))
    issue_session id in_.device

  -- Login's errors when the user is looked up: an unknown email and a wrong password look alike.
  abbrev pub hide_missing : Error → Auth User
  hide_missing user_not_found = raise invalid_credentials
  hide_missing e = raise e

  unfoldable pub login : LoginInput → Auth AuthResult
  login in_ = do
    let email = normalize_email in_.email
    guard (not (str_eq email "" || str_eq in_.password ""))
        (invalid_input "email and password are required")
    user ← catch (context "auth: get user" (Repo.get_by_email env email)) hide_missing
    guard (not (not (str_eq user.status user_status_active) || str_eq user.password_hash ""))
        invalid_credentials
    matches ←
        ask "auth: verify password" (λ n. deps.verify_password n in_.password user.password_hash)
    guard matches invalid_credentials
    issue_session user.id in_.device

  -- The user of an identity that is linked, or none.
  abbrev pub not_linked : Error → Auth (Option String)
  not_linked identity_not_linked = pure none
  not_linked e = raise e

  unfoldable pub provision : String → Subject → String → Option DeviceInput → Auth AuthResult
  provision provider who display_name device = do
    time ← now env
    let trimmed = deps.trim_space display_name
    let email = normalize_email who.email
    user_id ← new_id env
    context "auth: create oauth user" (
        Repo.create env (record {
          id = user_id;
          email = email;
          password_hash = "";
          display_name = if str_eq trimmed "" then email else trimmed;
          handle = "";
          status = user_status_active;
          role = role_user;
          created_at = time;
          updated_at = time;
        }))
    identity_id ← new_id env
    context "auth: link identity" (
        Repo.link env (record {
          id = identity_id;
          user_id = user_id;
          provider = provider;
          provider_user_id = who.subject;
          created_at = time;
        }))
    issue_session user_id device

  unfoldable pub find_or_create :
      String → Subject → String → Option DeviceInput → Option String → Auth AuthResult
  find_or_create provider who display_name device (some user_id) = issue_session user_id device
  find_or_create provider who display_name device none = provision provider who display_name device

  unfoldable pub login_with_oauth : String → String → String → Option DeviceInput → Auth AuthResult
  unfolding find_or_create provision
  login_with_oauth provider id_token display_name device = do
    guard (not (str_eq id_token "")) (invalid_input "oauth_token is required")
    who ← ask "oauth: verify" (λ n. deps.verify_oauth n provider id_token)
    linked ←
        catch
          (context "auth: lookup identity" (do
            user_id ← Repo.get_user_id_by_provider env provider who.subject
            pure (some user_id)))
          not_linked
    find_or_create provider who display_name device linked

  -- The checks of Refresh on the row that was presented, in its order.
  unfoldable pub rotate : RefreshToken → ℕ → Auth AuthResult
  rotate rt time =
      if not (str_eq rt.replaced_by "")
      then (do
        context "auth: revoke all after reuse" (Repo.revoke_all_for_user env rt.user_id time)
        raise refresh_token_reused)
      else do
        guard (elim rt.revoked_at [ none ↦ true | some _ ↦ false ]) refresh_token_revoked
        guard (ltb time rt.expires_at) refresh_token_expired
        issued ← issue_tokens rt.user_id rt.device_id
        context "auth: mark replaced" (Repo.mark_replaced env rt.id issued.id time)
        pure issued.result

  unfoldable pub refresh : String → Auth AuthResult
  refresh plaintext = do
    guard (not (str_eq plaintext "")) (invalid_input "refresh_token is required")
    rt ←
        context "auth: get refresh token" (Repo.get_by_hash env (deps.hash_refresh_token plaintext))
    time ← now env
    rotate rt time

  abbrev pub unknown_is_gone : Error → Auth (Option RefreshToken)
  unknown_is_gone invalid_refresh_token = pure none
  unknown_is_gone e = raise e

  unfoldable pub log_out_row : Option RefreshToken → Auth Unit
  log_out_row none = pure tt
  log_out_row (some rt) = do
    time ← now env
    context "auth: revoke refresh token" (Repo.revoke env rt.id time)

  unfoldable pub logout : String → Auth Unit
  unfolding log_out_row
  logout plaintext = do
    guard (not (str_eq plaintext "")) (invalid_input "refresh_token is required")
    row ←
        catch
          (context "auth: get refresh token"
            (do rt ← Repo.get_by_hash env (deps.hash_refresh_token plaintext); pure (some rt)))
          unknown_is_gone
    log_out_row row

  unfoldable pub logout_all : String → Auth Unit
  logout_all user_id = do
    guard (not (str_eq user_id "")) (invalid_input "user id is required")
    time ← now env
    context "auth: revoke all" (Repo.revoke_all_for_user env user_id time)

  abbrev pub unknown_has_no_role : Error → Auth Bool
  unknown_has_no_role user_not_found = pure false
  unknown_has_no_role e = raise e

  unfoldable pub has_role : String → String → Auth Bool
  has_role user_id role = do
    guard (not (str_eq user_id "")) (invalid_input "user id is required")
    catch
        (context "auth: get user for role check"
          (do user ← Repo.get_by_id env user_id; pure (str_eq user.role role)))
        unknown_has_no_role

  unfoldable pub me : String → Auth User
  me user_id = context "auth: get user" (Repo.get_by_id env user_id)
