-- ===== src/Presence/Settings.antt =====
-- backend/internal/presence/settings_service.go. `has_index` says whether the service was built with
-- a geo index (`geo != nil`).
pub mod Validity
pub mod Consent
use smusic.Prelude.{
  ◌∷◌, [], List, String, Bool, true, false, ◌||◌, not, ◌+◌, ℕ, Option, none, some, if◌then◌else◌,
  str_eq,
}
use smusic.Prelude.Int.{ℤ, pos, negsuc}
use smusic.Effect.{
  state_of, State, Env, pure, raise, catch, ◌>>=◌, ◌>>◌, guard, now, fetch, best_effort,
}
use smusic.Presence.Domain.{
  PrivacySettings, Error, Floats, default_privacy_settings, invalid_input, settings_not_found,
  invalid_visibility, invalid_radius, invalid_reveal_level, mfa_required, cannot_block_self, failed,
  is_valid_visibility, is_valid_radius, is_valid_reveal_level, visibility_invisible,
  consent_validity_period,
}
use smusic.Presence.World.{World, Presence, context}
use smusic.Presence.Repo
use smusic.Presence.GeoIndex

-- `none` leaves the field as it is.
pub record UpdateSettingsInput : Type 0 where
  pub presence_visibility : Option String
  pub presence_share_track : Option Bool
  pub visibility_radius_m : Option ℤ
  pub reveal_level : Option ℤ
  pub paused : Option Bool

abbrev or_default : String → Error → Presence PrivacySettings
or_default user_id settings_not_found = pure (default_privacy_settings user_id)
or_default user_id e = raise e

abbrev set_visibility : Option String → PrivacySettings → Presence PrivacySettings
set_visibility none current = pure current
set_visibility (some v) current =
    if is_valid_visibility v
    then pure (record current { presence_visibility = v })
    else raise invalid_visibility

abbrev set_share_track : Option Bool → PrivacySettings → PrivacySettings
set_share_track none current = current
set_share_track (some b) current = record current { presence_share_track = b }

-- No valid radius and no valid level is negative.
abbrev set_radius : Option ℤ → PrivacySettings → Presence PrivacySettings
set_radius none current = pure current
set_radius (some (negsuc n)) current = raise invalid_radius
set_radius (some (pos m)) current =
    if is_valid_radius m
    then pure (record current { visibility_radius_m = m })
    else raise invalid_radius

abbrev set_reveal_level : Option ℤ → PrivacySettings → Presence PrivacySettings
set_reveal_level none current = pure current
set_reveal_level (some (negsuc n)) current = raise invalid_reveal_level
set_reveal_level (some (pos l)) current =
    if is_valid_reveal_level l
    then pure (record current { reveal_level = l })
    else raise invalid_reveal_level

abbrev set_paused_field : Option Bool → PrivacySettings → PrivacySettings
set_paused_field none current = current
set_paused_field (some b) current = record current { paused = b }

-- The validated changes of Update, in its order; the first invalid field ends it.
pub apply_input : UpdateSettingsInput → PrivacySettings → Presence PrivacySettings
apply_input in_ current = do
  seen ← set_visibility in_.presence_visibility current
  near ← set_radius in_.visibility_radius_m (set_share_track in_.presence_share_track seen)
  revealed ← set_reveal_level in_.reveal_level near
  pure (set_paused_field in_.paused revealed)

-- Whether the settings keep a user out of the index.
abbrev pub is_hidden : PrivacySettings → Bool
is_hidden s = s.paused || str_eq s.presence_visibility visibility_invisible

-- The calls that the REST handlers make. A call that fails is answered with an error, and the next
-- one starts from the state that it left.
pub data Call : Type 0 where
  updates : String → UpdateSettingsInput → Call
  grants : String → Call
  revokes : String → Call
  pauses : String → Bool → Call
  blocks : String → String → Call
  unblocks : String → String → Call

module _ (env : Env) (fl : Floats) (has_index : Bool) where
  unfoldable pub get : String → Presence PrivacySettings
  get user_id =
      if str_eq user_id ""
      then raise (invalid_input "user id is required")
      else catch (context "presence: get settings" (Repo.get env user_id)) (or_default user_id)

  unfoldable pub remove_from_index : String → Presence Unit
  remove_from_index user_id =
      if has_index then best_effort (GeoIndex.remove env fl user_id) else pure tt

  unfoldable pub update : String → UpdateSettingsInput → Presence PrivacySettings
  update user_id in_ = do
    guard (not (str_eq user_id "")) (invalid_input "user id is required")
    current ← get user_id
    changed ← apply_input in_ current
    time ← now env
    let stamped = record changed { updated_at = time }
    context "presence: upsert settings" (Repo.upsert env stamped)
    if is_hidden stamped then remove_from_index user_id else pure tt
    pure stamped

  unfoldable pub grant_consent : String → Presence PrivacySettings
  grant_consent user_id = do
    guard (not (str_eq user_id "")) (invalid_input "user id is required")
    has_mfa ←
        context "presence: check mfa" (fetch env (failed "mfa") (λ _ w. w.mfa_verified user_id))
    guard has_mfa mfa_required
    current ← get user_id
    time ← now env
    let granted = record current {
      proximity_consent_enabled = true;
      proximity_consent_ts = some time;
      proximity_consent_renew_due = some (time + consent_validity_period);
      updated_at = time;
    }
    context "presence: upsert settings" (Repo.upsert env granted)
    pure granted

  unfoldable pub revoke_consent : String → Presence PrivacySettings
  revoke_consent user_id = do
    guard (not (str_eq user_id "")) (invalid_input "user id is required")
    current ← get user_id
    time ← now env
    let revoked = record current {
      proximity_consent_enabled = false;
      paused = true;
      updated_at = time;
    }
    context "presence: upsert settings" (Repo.upsert env revoked)
    remove_from_index user_id
    pure revoked

  unfoldable pub set_paused : String → Bool → Presence PrivacySettings
  set_paused user_id paused = update user_id (record {
    presence_visibility = none;
    presence_share_track = none;
    visibility_radius_m = none;
    reveal_level = none;
    paused = some paused;
  })

  unfoldable pub block : String → String → Presence Unit
  block blocker_id blocked_id = do
    guard (not (str_eq blocker_id "" || str_eq blocked_id ""))
        (invalid_input "blocker and blocked user ids are required")
    guard (not (str_eq blocker_id blocked_id)) cannot_block_self
    context "presence: block" (Repo.block env blocker_id blocked_id)

  unfoldable pub unblock : String → String → Presence Unit
  unblock blocker_id blocked_id = do
    guard (not (str_eq blocker_id "" || str_eq blocked_id ""))
        (invalid_input "blocker and blocked user ids are required")
    context "presence: unblock" (Repo.unblock env blocker_id blocked_id)

  abbrev ignore : {A : Type 0} → Presence A → Presence Unit
  ignore m = m >>= λ _. pure tt

  unfoldable pub serve : Call → Presence Unit
  serve (updates user_id in_) = ignore (update user_id in_)
  serve (grants user_id) = ignore (grant_consent user_id)
  serve (revokes user_id) = ignore (revoke_consent user_id)
  serve (pauses user_id paused) = ignore (set_paused user_id paused)
  serve (blocks blocker_id blocked_id) = block blocker_id blocked_id
  serve (unblocks blocker_id blocked_id) = unblock blocker_id blocked_id

  unfoldable pub run : State World → List Call → State World
  run s [] = s
  run s (c ∷ cs) = run (state_of (serve c s)) cs
