-- ===== src/Auth/Mfa.antt =====
-- backend/internal/auth/mfa/totp.go, its repository mfa/postgres/repo.go, and the second-factor calls
-- of backend/internal/auth/service.go. The TOTP library is a parameter: a generated key (its secret
-- and its otpauth URL) at each interaction, and the check of a code against a secret at a time; so is
-- the account's name. `none` is their error.
pub mod Activation
use smusic.Prelude.{
  suc, ℕ, String, Bool, true, false, not, ◌||◌, Option, none, some, List, [], ◌∷◌, if◌then◌else◌,
  str_eq, assign,
}
use smusic.Effect.{
  Env, State, Act, ok, err, bump, pure, raise, or_raise, catch, ◌>>=◌, ◌>>◌, guard, now, fetch,
  store, state_of,
}

pub record Secret : Type 0 where
  pub user_id : String
  pub value : String
  pub verified_at : Option ℕ

pub record Key : Type 0 where
  pub secret : String
  pub url : String

pub data MfaError : Type 0 where
  invalid_input : String → MfaError
  secret_not_found : MfaError
  failed : String → MfaError

pub record Factors : Type 0 where
  pub secrets : String → Option Secret

pub record Totp : Type 0 where
  pub account_name : ℕ → String → Option String
  pub generate : ℕ → String → Option Key
  pub validate : String → String → ℕ → Option Bool

abbrev pub Mfa : Type 0 → Type 0
Mfa A = Act Factors MfaError A

abbrev wrapped : String → MfaError → MfaError
wrapped text (failed _) = failed text
wrapped text e = e

abbrev pub context : {A : Type 0} → String → Mfa A → Mfa A
context text m = catch m (λ e. raise (wrapped text e))

abbrev pub or_fail : {A : Type 0} → String → Option A → Mfa A
or_fail text o = or_raise (failed text) o

abbrev verified : ℕ → Option Secret → Option Secret
verified at none = none
verified at (some s) = some (record s { verified_at = some at })

pub data Call : Type 0 where
  enrolls : String → Call
  verifies : String → String → Call
  asks_verified : String → Call

module _ (env : Env) where
  unfoldable pub get : String → Mfa Secret
  get user_id = do
    row ← fetch env (failed "query row") (λ _ w. w.secrets user_id)
    or_raise secret_not_found row

  -- A new secret is not verified.
  unfoldable pub upsert : String → String → Mfa Unit
  upsert user_id value = store env (failed "exec") λ _ w. record w {
    secrets =
        assign w.secrets user_id
          (some (record { user_id = user_id; value = value; verified_at = none }));
  }

  abbrev pub found : Option Secret → Mfa Unit
  found none = raise secret_not_found
  found (some s) = pure tt

  unfoldable pub mark_verified : String → ℕ → Mfa Unit
  mark_verified user_id at s =
      if env.fault s.tick
      then err (failed "exec") (bump s)
      else found (s.world.secrets user_id) (record {
        tick = suc s.tick;
        world = record {
          secrets = assign s.world.secrets user_id (verified at (s.world.secrets user_id));
        };
      })

module _ (env : Env) (totp : Totp) where
  unfoldable pub enroll : String → Mfa Key
  enroll user_id = do
    account ← (λ s. or_fail "mfa: resolve account name" (totp.account_name s.tick user_id) (bump s))
    key ← (λ s. or_fail "mfa: generate secret" (totp.generate s.tick account) (bump s))
    context "mfa: store secret" (upsert env user_id key.secret)
    pure key

  abbrev mark : String → Option ℕ → Mfa Unit
  mark user_id (some at) = pure tt
  mark user_id none = do
    time ← now env
    context "mfa: mark verified" (mark_verified env user_id time)

  unfoldable pub verify : String → String → Mfa Bool
  verify user_id code = do
    secret ← context "mfa: get secret" (get env user_id)
    time ← now env
    matches ← or_fail "mfa: validate code" (totp.validate code secret.value time)
    if matches then (do mark user_id secret.verified_at; pure true) else pure false

  abbrev missing_is_unverified : MfaError → Mfa Bool
  missing_is_unverified secret_not_found = pure false
  missing_is_unverified e = raise e

  abbrev is_verified : Secret → Bool
  is_verified s = elim s.verified_at [ none ↦ false | some _ ↦ true ]

  unfoldable pub has_verified : String → Mfa Bool
  has_verified user_id =
      catch (context "mfa: get secret" (do s ← get env user_id; pure (is_verified s)))
        missing_is_unverified

  -- EnrollMFA, VerifyMFA and HasVerifiedMFA of the service.
  unfoldable pub enroll_mfa : String → Mfa Key
  enroll_mfa user_id = do
    guard (not (str_eq user_id "")) (invalid_input "user id is required")
    context "auth: enroll mfa" (enroll user_id)

  unfoldable pub verify_mfa : String → String → Mfa Bool
  verify_mfa user_id code = do
    guard (not (str_eq user_id "" || str_eq code ""))
        (invalid_input "user id and code are required")
    verify user_id code

  unfoldable pub has_verified_mfa : String → Mfa Bool
  has_verified_mfa user_id = do
    guard (not (str_eq user_id "")) (invalid_input "user id is required")
    has_verified user_id

  abbrev ignore : {A : Type 0} → Mfa A → Mfa Unit
  ignore m = m >>= λ _. pure tt

  unfoldable pub serve : Call → Mfa Unit
  serve (enrolls user_id) = ignore (enroll_mfa user_id)
  serve (verifies user_id code) = ignore (verify_mfa user_id code)
  serve (asks_verified user_id) = ignore (has_verified_mfa user_id)

  unfoldable pub run : State Factors → List Call → State Factors
  run s [] = s
  run s (c ∷ cs) = run (state_of (serve c s)) cs
