-- ===== src/Auth/Tests.antt =====
-- Concrete runs of the authentication service: a sign-up, and what follows from it.
use smusic.Prelude.{
  apart, Bool-cases, subst, ap, eq_refl, ℕ, zero, suc, String, str_append, str_eq, ◌≡◌, ◌≢◌, refl,
  true, false, Option, none, some, [], ◌∷◌, if◌then◌else◌, arith, some-inj, inl, inr,
}
use smusic.Effect.{Env, State, Outcome, IsErr, state_of, world_of, ok, err, bump, ◌>>=◌}
use smusic.Auth.Domain.{
  Deps, World, RefreshToken, SignUpInput, LoginInput, AuthResult, Error, invalid_credentials,
  refresh_token_reused,
}
use smusic.Auth.Repo
use smusic.Auth.Repo.{row_of}
use smusic.Auth.Service
use smusic.Auth.Calls.{run, refreshes, logs_in, logs_out}
use smusic.Auth.Service.Rotation.{Exchange, refresh-Exchange, refresh-refresh}
use smusic.Auth.Service.Revocation.{Ended, refresh-Ended, logout-refresh, logout_all-refresh}
use smusic.Auth.Service.Credentials.{is_refused, login-is_refused, sign_up-login}

abbrev name : ℕ → String
name zero = ""
name (suc n) = str_append "i" (name n)

abbrev env : Env
env = record { clock = λ n. n; fault = λ _. false; fresh_id = name }

abbrev hash_password : ℕ → String → Option String
hash_password _ p = if str_eq p "" then none else some p

abbrev deps : Deps
deps = record {
  hash_password = hash_password;
  verify_password = λ _ p h. some (str_eq p h);
  sign = λ n u. some (record { token = u; expires_at = n });
  new_refresh_token = λ n. some (name n);
  hash_refresh_token = λ p. str_append "#" p;
  verify_oauth = λ _ _ _. none;
  trim_space = λ t. t;
  to_lower = λ t. t;
  refresh_ttl = 100;
}

abbrev start : State World
start = record {
  tick = 1;
  world = record { users = []; identities = []; devices = []; tokens = [] };
}

abbrev ana : SignUpInput
ana = record {
  email = "ana@example.org";
  password = "caipirinha";
  display_name = "Ana";
  device = none;
}

abbrev credentials : String → LoginInput
credentials password = record { email = "ana@example.org"; password = password; device = none }

abbrev signing_up : Outcome World Error AuthResult
signing_up = Service.sign_up env deps ana start

abbrev after : State World
after = state_of signing_up

abbrev session : AuthResult
session = record {
  user_id = "iii";
  access_token = "iii";
  access_token_expires_at = 5;
  refresh_token = "iiiiii";
  refresh_token_expires_at = 107;
}

signs-up : signing_up ≡ ok session after
unfolding Service.sign_up Service.normalize_email Service.ask Service.issue_session
    Service.upsert_device Service.issue_tokens Service.store_refresh_token Repo.create
    Repo.store_token ◌>>=◌
signs-up = refl

abbrev refreshing : Outcome World Error AuthResult
refreshing = Service.refresh env deps "iiiiii" after

abbrev renewed : AuthResult
renewed = record {
  user_id = "iii";
  access_token = "iii";
  access_token_expires_at = 13;
  refresh_token = "iiiiiiiiiiiiii";
  refresh_token_expires_at = 115;
}

abbrev first_row : RefreshToken
first_row = record {
  id = "iiiiiiii";
  user_id = "iii";
  device_id = "";
  token_hash = "#iiiiii";
  issued_at = 9;
  expires_at = 107;
  revoked_at = none;
  replaced_by = "";
}

first-stored : row_of "#iiiiii" after.world.tokens ≡ some first_row
unfolding Service.sign_up Service.normalize_email Service.ask Service.issue_session
    Service.upsert_device Service.issue_tokens Service.store_refresh_token Repo.create
    Repo.store_token ◌>>=◌
first-stored = refl

refreshes-once : refreshing ≡ ok renewed (state_of refreshing)
unfolding Service.sign_up Service.normalize_email Service.ask Service.issue_session
    Service.upsert_device Service.issue_tokens Service.store_refresh_token Repo.create
    Repo.store_token Service.refresh Service.rotate Repo.get_by_hash Repo.mark_replaced ◌>>=◌
refreshes-once = refl

refresh-Exchange_example :
    (old : RefreshToken) × (row_of "#iiiiii" after.world.tokens ≡ some old)
    × Exchange env deps old
        (env.clock (suc after.tick))
        renewed
        "iiiiii"
        (state_of refreshing).world
refresh-Exchange_example =
    refresh-Exchange env deps "iiiiii" after (state_of refreshing) renewed refreshes-once

refresh-refresh_example : IsErr (
    Service.refresh env deps "iiiiii"
      (run env deps (state_of refreshing) (logs_in (credentials "caipirinha") ∷ [])))
refresh-refresh_example =
    refresh-refresh env deps "iiiiii" after (state_of refreshing) renewed
      (logs_in (credentials "caipirinha") ∷ []) refreshes-once

abbrev used_row : RefreshToken
used_row = record first_row { revoked_at = some 12; replaced_by = "iiiiiiiiiiiiiiii" }

used-stored : row_of "#iiiiii" (state_of refreshing).world.tokens ≡ some used_row
unfolding Service.sign_up Service.normalize_email Service.ask Service.issue_session
    Service.upsert_device Service.issue_tokens Service.store_refresh_token Repo.create
    Repo.store_token Service.refresh Service.rotate Repo.get_by_hash Repo.mark_replaced ◌>>=◌
used-stored = refl

abbrev reusing : Outcome World Error AuthResult
reusing = Service.refresh env deps "iiiiii" (state_of refreshing)

refresh-Ended_example :
    (reusing ≡ err refresh_token_reused (state_of reusing))
    × Ended "iii" (state_of refreshing).world (world_of reusing)
refresh-Ended_example =
    refresh-Ended env deps "iiiiii" (state_of refreshing) used_row (λ _. refl)
      (apart "iiiiii" "" refl) used-stored (apart "iiiiiiiiiiiiiiii" "" refl)

abbrev logging_out : Outcome World Error Unit
logging_out = Service.logout env deps "iiiiii" after

logs-out : logging_out ≡ ok tt (state_of logging_out)
unfolding Service.sign_up Service.normalize_email Service.ask Service.issue_session
    Service.upsert_device Service.issue_tokens Service.store_refresh_token Repo.create
    Repo.store_token Service.logout Service.log_out_row Repo.get_by_hash Repo.revoke ◌>>=◌
logs-out = refl

logout-refresh_example : IsErr (
    Service.refresh env deps "iiiiii"
      (run env deps (state_of logging_out) (refreshes "iiiiii" ∷ logs_out "iiiiii" ∷ [])))
logout-refresh_example =
    logout-refresh env deps "iiiiii" after (state_of logging_out) first_row
      (refreshes "iiiiii" ∷ logs_out "iiiiii" ∷ []) first-stored logs-out

abbrev leaving : Outcome World Error Unit
leaving = Service.logout_all env deps "iii" after

leaves : leaving ≡ ok tt (state_of leaving)
unfolding Service.logout_all Repo.revoke_all_for_user ◌>>=◌
leaves = refl

logout_all-refresh_example :
    IsErr (
      Service.refresh env deps "iiiiii" (run env deps (state_of leaving) (refreshes "iiiiii" ∷ [])))
logout_all-refresh_example =
    logout_all-refresh env deps "iii" "iiiiii" after (state_of leaving) first_row
      (refreshes "iiiiii" ∷ []) first-stored refl leaves

abbrev guessing : Outcome World Error AuthResult
guessing = Service.login env deps (credentials "guess") after

login-is_refused_example :
    (guessing ≡ err invalid_credentials (state_of guessing)) × (world_of guessing ≡ after.world)
unfolding Service.sign_up Service.normalize_email Service.ask Service.issue_session
    Service.upsert_device Service.issue_tokens Service.store_refresh_token Repo.create
    Repo.store_token is_refused ◌>>=◌
login-is_refused_example =
    login-is_refused env deps (credentials "guess") after (λ _. refl)
      (apart "ana@example.org" "" refl) (apart "guess" "" refl) refl

verifies :
    (m n : ℕ) (password hash : String)
    → deps.hash_password m password ≡ some hash
    → (deps.verify_password n password hash ≡ some true) × (hash ≢ "")
verifies m n password hash h = elim (Bool-cases (str_eq password "")) [
  | inl e ↦ absurd (ground arith)
  | inr e ↦
      subst (λ x. (some (str_eq password x) ≡ some true) × (x ≢ "")) (some-inj (rw e at h))
        (ap some (eq_refl password), apart password "" e)
]

sign_up-login_example :
    Service.login env deps (credentials "caipirinha") after
    ≡ Service.issue_session env deps "iii" none (bump (bump after))
sign_up-login_example =
    sign_up-login env deps ana none start after session (λ _. refl) verifies signs-up
