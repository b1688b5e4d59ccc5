-- ===== src/Auth/Domain.antt =====
-- backend/internal/auth/domain.go, the inputs and results of service.go, and what the service takes
-- from outside: password hashing, token signing and hashing, random tokens, OAuth, Go's strings.
-- Times count nanoseconds, as a number.
use smusic.Prelude.{ℕ, String, Bool, Option, List}
use smusic.Effect.{Act, catch, raise}

abbrev pub user_status_active : String
user_status_active = "active"

abbrev pub role_user : String
role_user = "user"

pub record User : Type 0 where
  pub id : String
  pub email : String
  pub password_hash : String
  pub display_name : String
  pub handle : String
  pub status : String
  pub role : String
  pub created_at : ℕ
  pub updated_at : ℕ

pub record Identity : Type 0 where
  pub id : String
  pub user_id : String
  pub provider : String
  pub provider_user_id : String
  pub created_at : ℕ

pub record Device : Type 0 where
  pub id : String
  pub user_id : String
  pub platform : String
  pub push_token : String
  pub app_version : String
  pub last_seen_at : ℕ

pub record RefreshToken : Type 0 where
  pub id : String
  pub user_id : String
  pub device_id : String
  pub token_hash : String
  pub issued_at : ℕ
  pub expires_at : ℕ
  pub revoked_at : Option ℕ
  pub replaced_by : String

-- The sentinel errors, and `failed` for an error of a dependency wrapped with its context.
pub data Error : Type 0 where
  invalid_input : String → Error
  email_taken invalid_credentials user_not_found identity_not_linked : Error
  invalid_refresh_token refresh_token_expired refresh_token_revoked refresh_token_reused : Error
  failed : String → Error

pub record DeviceInput : Type 0 where
  pub platform : String
  pub push_token : String
  pub app_version : String

pub record SignUpInput : Type 0 where
  pub email : String
  pub password : String
  pub display_name : String
  pub device : Option DeviceInput

pub record LoginInput : Type 0 where
  pub email : String
  pub password : String
  pub device : Option DeviceInput

pub record AuthResult : Type 0 where
  pub user_id : String
  pub access_token : String
  pub access_token_expires_at : ℕ
  pub refresh_token : String
  pub refresh_token_expires_at : ℕ

pub record Subject : Type 0 where
  pub subject : String
  pub email : String

pub record Signed : Type 0 where
  pub token : String
  pub expires_at : ℕ

-- The dependencies, at the interaction in which they are asked; `none` is their error.
pub record Deps : Type 0 where
  pub hash_password : ℕ → String → Option String
  pub verify_password : ℕ → String → String → Option Bool
  pub sign : ℕ → String → Option Signed
  pub new_refresh_token : ℕ → Option String
  pub hash_refresh_token : String → String
  pub verify_oauth : ℕ → String → String → Option Subject
  pub trim_space : String → String
  pub to_lower : String → String
  pub refresh_ttl : ℕ

pub record World : Type 0 where
  pub users : List User
  pub identities : List Identity
  pub devices : List Device
  pub tokens : List RefreshToken

abbrev pub Auth : Type 0 → Type 0
Auth A = Act World Error A

abbrev pub wrapped : String → Error → Error
wrapped text (failed _) = failed text
wrapped text e = e

-- fmt.Errorf("context: %w", err), as errors.Is sees it.
abbrev pub context : {A : Type 0} → String → Auth A → Auth A
context text m = catch m (λ e. raise (wrapped text e))
