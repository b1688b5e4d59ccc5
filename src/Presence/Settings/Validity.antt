-- ===== src/Presence/Settings/Validity.antt =====
-- The stored rows stay within the constraints of settings_service.go, whatever the calls and their
-- failures.
pub mod Input
pub mod Calls
use smusic.Prelude.{
  ◌∷◌, [], List, if◌then◌else◌, false, ◌+◌, some-inj, subst, ℕ, String, inl, inr, Bool-cases, ◌≡◌,
  refl, Bool, true, Option, none, some, arith, str_eq, eq_iff, assign,
}
use smusic.Effect.{state_of, ◌>>=◌, pure, fetch, Env, State, Outcome, ok, err, world_of}
use smusic.Effect.Keeps.{
  Post-world, Keeps-now, Keeps-guard, Keeps, Post, Any, keeps_rules, Keeps-pure, Keeps-raise,
  Keeps-catch, Keeps-bind, Keeps-fetch, Keeps-if, Keeps-or_raise,
}
use smusic.Presence.Domain.{
  PrivacySettings, Error, Floats, default_privacy_settings, is_valid_visibility, is_valid_radius,
  is_valid_reveal_level, settings_not_found, failed, consent_validity_period,
}
use smusic.Presence.World.{World, Presence, context}
use smusic.Presence.Repo
use smusic.Presence.Repo.{upsert_row}
use smusic.Presence.GeoIndex
use smusic.Presence.Settings.{
  block, unblock, unblocks, blocks, updates, pauses, grants, revokes, Call, set_paused, run, serve,
  revoke_consent, grant_consent, UpdateSettingsInput, apply_input, get, update, remove_from_index,
  or_default, set_visibility, set_radius, set_reveal_level, set_share_track, set_paused_field,
}

-- Consent that is on has a renewal date: no row is consented for ever.
pub record IsValid (user_id : String) (s : PrivacySettings) : Type 0 where
  pub owner : s.user_id ≡ user_id
  pub visibility : is_valid_visibility s.presence_visibility ≡ true
  pub radius : is_valid_radius s.visibility_radius_m ≡ true
  pub level : is_valid_reveal_level s.reveal_level ≡ true
  pub due : s.proximity_consent_enabled ≡ true → (t : ℕ) × (s.proximity_consent_renew_due ≡ some t)

-- Every stored row is valid, and stands under its owner's key.
pub record AllValid (w : World) : Type 0 where
  pub row :
      (user_id : String) (s : PrivacySettings) → w.settings user_id ≡ some s → IsValid user_id s

pub default-IsValid : (user_id : String) → IsValid user_id (default_privacy_settings user_id)
unfolding default_privacy_settings is_valid_visibility is_valid_radius is_valid_reveal_level
default-IsValid user_id = record {
  owner = refl;
  visibility = refl;
  radius = refl;
  level = refl;
  due = λ h. cc;
}
