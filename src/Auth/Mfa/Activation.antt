-- ===== src/Auth/Mfa/Activation.antt =====
-- When a second factor counts as verified (Enroll, Verify and HasVerified of
-- backend/internal/auth/mfa/totp.go).
use smusic.Prelude.{
  Option-cases, All, suc, String, ◌≡◌, ◌≢◌, refl, Bool, true, false, Bool-cases, inl, inr, none,
  some, List, [], ◌∷◌, arith, str_eq, eq_refl, eq_iff,
}
use smusic.Effect.{Env, State, ok, ◌>>=◌, state_of, world_of}
use smusic.Auth.Mfa.{
  Secret, Key, Factors, Totp, Call, enrolls, verifies, asks_verified, get, upsert, mark_verified,
  enroll, verify, has_verified, enroll_mfa, verify_mfa, has_verified_mfa, serve, run,
}

-- Whether the stored factor of a user counts.
unfoldable pub is_active : String → Factors → Bool
is_active user_id w = elim (w.secrets user_id) [
  | none ↦ false
  | some s ↦ elim s.verified_at [ none ↦ false | some _ ↦ true ]
]

module _ (env : Env) (totp : Totp) where
  -- The answer of HasVerifiedMFA is the state of the stored factor, if the query does not fail.
  pub has_verified_mfa-is_active :
      (user_id : String) (s : State Factors)
      → user_id ≢ ""
      → env.fault s.tick ≡ false
      → has_verified_mfa env totp user_id s
        ≡ ok (is_active user_id s.world) (state_of (has_verified_mfa env totp user_id s))
  unfolding has_verified_mfa has_verified get is_active ◌>>=◌
  has_verified_mfa-is_active user_id s given up = ground (arith, eq_iff user_id "")

  -- A code that is accepted was valid for the user's stored secret at the time that the clock gave in
  -- this call, at its second interaction, and afterwards the factor is active.
  pub verify_mfa-is_active :
      (user_id code : String) (s t : State Factors)
      → verify_mfa env totp user_id code s ≡ ok true t
      → (is_active user_id t.world ≡ true)
        × ((secret : Secret) × (s.world.secrets user_id ≡ some secret)
            × (totp.validate code secret.value (env.clock (suc s.tick)) ≡ some true))
  unfolding verify_mfa verify get mark_verified is_active ◌>>=◌
  verify_mfa-is_active user_id code s t h = elim (Option-cases (s.world.secrets user_id)) [
    | inl e ↦ absurd (ground arith)
    | inr (secret, e) ↦ (ground (arith, eq_refl user_id), (secret, e, ground arith))
  ]

  -- A code that is turned away, or an error, changes no factor.
  pub verify_mfa-secrets :
      (user_id code : String) (s t : State Factors)
      → verify_mfa env totp user_id code s ≡ ok false t
      → t.world ≡ s.world
  unfolding verify_mfa verify get mark_verified ◌>>=◌
  verify_mfa-secrets user_id code s t h = ground arith

  -- Enrolling, also over a verified factor, leaves a factor that has the secret that was returned
  -- and is not active.
  pub enroll_mfa-is_active :
      (user_id : String) (s t : State Factors) (key : Key)
      → enroll_mfa env totp user_id s ≡ ok key t
      → (is_active user_id t.world ≡ false)
        × ((secret : Secret) × (t.world.secrets user_id ≡ some secret)
            × (secret.value ≡ key.secret))
  unfolding enroll_mfa enroll upsert is_active ◌>>=◌
  enroll_mfa-is_active user_id s t key h = (
    ground (arith, eq_refl user_id),
    (
      record { user_id = user_id; value = key.secret; verified_at = none },
      ground (arith, eq_refl user_id),
      refl,
    ),
  )

  -- A call that may activate the factor of `user_id`.
  abbrev pub Verifies : String → Call → Type 0
  Verifies user_id (verifies u code) = u ≡ user_id
  Verifies user_id c = ⊥

  serve-is_active :
      (user_id : String) (c : Call) (s : State Factors)
      → (Verifies user_id c → ⊥)
      → is_active user_id s.world ≡ false
      → is_active user_id (world_of (serve env totp c s)) ≡ false
  unfolding serve enroll_mfa enroll verify_mfa verify has_verified_mfa has_verified get upsert
      mark_verified is_active ◌>>=◌
  serve-is_active user_id (enrolls u) s other h = ground arith
  serve-is_active user_id (verifies u code) s other h = elim (Bool-cases (str_eq u user_id)) [
    | inl e ↦ absurd (other ((eq_iff u user_id).0 e))
    | inr e ↦ ground arith
  ]
  serve-is_active user_id (asks_verified u) s other h = ground arith

  -- Only a verification of the user's own code activates a factor: in a run without one, a factor that
  -- is not active stays so.
  pub run-is_active :
      (user_id : String) (s : State Factors) (calls : List Call)
      → All (λ c. Verifies user_id c → ⊥) calls
      → is_active user_id s.world ≡ false
      → is_active user_id (run env totp s calls).world ≡ false
  unfolding run
  run-is_active user_id s [] others h = h
  run-is_active user_id s (c ∷ cs) others h =
      run-is_active user_id (state_of (serve env totp c s)) cs others.1
        (serve-is_active user_id c s others.0 h)
