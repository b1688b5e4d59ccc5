-- ===== src/Auth/MfaTests.antt =====
-- Concrete runs of the second-factor calls: an enrolment and a verification.
use smusic.Prelude.{suc, apart, str_eq, ◌≡◌, refl, Bool, true, false, none, some, [], ◌∷◌}
use smusic.Effect.{Env, State, Outcome, ok, ◌>>=◌, state_of}
use smusic.Auth.Mfa
use smusic.Auth.Mfa.{Secret, Key, Factors, Totp, MfaError, run, enrolls, verifies, asks_verified}
use smusic.Auth.Mfa.Activation.{
  is_active, verify_mfa-is_active, enroll_mfa-is_active, run-is_active,
}

abbrev env : Env
env = record { clock = λ n. n; fault = λ _. false; fresh_id = λ _. "" }

abbrev totp : Totp
totp = record {
  account_name = λ n u. some u;
  generate = λ n account. some (record { secret = "JBSWY3DP"; url = "otpauth://totp/smusic" });
  validate = λ code secret time. some (str_eq code "123456");
}

abbrev start : State Factors
start = record { tick = 0; world = record { secrets = λ _. none } }

abbrev enrolling : Outcome Factors MfaError Key
enrolling = Mfa.enroll_mfa env totp "ana" start

abbrev key : Key
key = record { secret = "JBSWY3DP"; url = "otpauth://totp/smusic" }

ana-enrolls : enrolling ≡ ok key (state_of enrolling)
unfolding Mfa.enroll_mfa Mfa.enroll Mfa.upsert ◌>>=◌
ana-enrolls = refl

enroll_mfa-is_active_example :
    (is_active "ana" (state_of enrolling).world ≡ false)
    × ((secret : Secret) × ((state_of enrolling).world.secrets "ana" ≡ some secret)
        × (secret.value ≡ "JBSWY3DP"))
enroll_mfa-is_active_example =
    enroll_mfa-is_active env totp "ana" start (state_of enrolling) key ana-enrolls

abbrev verifying : Outcome Factors MfaError Bool
verifying = Mfa.verify_mfa env totp "ana" "123456" (state_of enrolling)

ana-verifies : verifying ≡ ok true (state_of verifying)
unfolding Mfa.enroll_mfa Mfa.enroll Mfa.upsert Mfa.verify_mfa Mfa.verify Mfa.get Mfa.mark_verified
    ◌>>=◌
ana-verifies = refl

verify_mfa-is_active_example :
    (is_active "ana" (state_of verifying).world ≡ true)
    × ((secret : Secret) × ((state_of enrolling).world.secrets "ana" ≡ some secret)
        × (totp.validate "123456" secret.value (env.clock (suc (state_of enrolling).tick))
            ≡ some true))
verify_mfa-is_active_example =
    verify_mfa-is_active env totp "ana" "123456" (state_of enrolling) (state_of verifying)
      ana-verifies

run-is_active_example :
    is_active "ana"
      (run env totp start
        (enrolls "ana" ∷ verifies "bia" "123456" ∷ asks_verified "ana" ∷ [])).world
    ≡ false
unfolding is_active
run-is_active_example =
    run-is_active env totp "ana" start
      (enrolls "ana" ∷ verifies "bia" "123456" ∷ asks_verified "ana" ∷ [])
      ((λ h. h), (apart "bia" "ana" refl, ((λ h. h), tt))) refl
