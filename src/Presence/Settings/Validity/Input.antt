-- ===== src/Presence/Settings/Validity/Input.antt =====
-- The validated changes of Update in backend/internal/presence/settings_service.go.
use smusic.Prelude.Int.{ℤ, pos, negsuc}
use smusic.Presence.Settings.Validity.{IsValid, AllValid}
use smusic.Prelude.{String, Bool, Option, none, some}
use smusic.Effect.Keeps.{Keeps, Keeps-pure, Keeps-raise, Keeps-bind, Keeps-if}
use smusic.Presence.Domain.{
  PrivacySettings, is_valid_visibility, is_valid_radius, is_valid_reveal_level,
}
use smusic.Presence.Settings.{
  UpdateSettingsInput, apply_input, set_visibility, set_radius, set_reveal_level, set_share_track,
  set_paused_field,
}

module _ (user_id : String) where
  pub set_visibility-IsValid :
      (v : Option String) (c : PrivacySettings)
      → IsValid user_id c
      → Keeps AllValid (IsValid user_id) (set_visibility v c)
  set_visibility-IsValid none c h = Keeps-pure c h
  set_visibility-IsValid (some v) c h =
      Keeps-if (is_valid_visibility v) _ _
        (λ e. Keeps-pure _ (record {
          owner = h.owner;
          visibility = e;
          radius = h.radius;
          level = h.level;
          due = h.due;
        }))
        (λ _. Keeps-raise _)

  pub set_radius-IsValid :
      (m : Option ℤ) (c : PrivacySettings)
      → IsValid user_id c
      → Keeps AllValid (IsValid user_id) (set_radius m c)
  set_radius-IsValid none c h = Keeps-pure c h
  set_radius-IsValid (some (negsuc n)) c h = Keeps-raise _
  set_radius-IsValid (some (pos v)) c h =
      Keeps-if (is_valid_radius v) _ _
        (λ e. Keeps-pure _ (record {
          owner = h.owner;
          visibility = h.visibility;
          radius = e;
          level = h.level;
          due = h.due;
        }))
        (λ _. Keeps-raise _)

  pub set_reveal_level-IsValid :
      (l : Option ℤ) (c : PrivacySettings)
      → IsValid user_id c
      → Keeps AllValid (IsValid user_id) (set_reveal_level l c)
  set_reveal_level-IsValid none c h = Keeps-pure c h
  set_reveal_level-IsValid (some (negsuc n)) c h = Keeps-raise _
  set_reveal_level-IsValid (some (pos v)) c h =
      Keeps-if (is_valid_reveal_level v) _ _
        (λ e. Keeps-pure _ (record {
          owner = h.owner;
          visibility = h.visibility;
          radius = h.radius;
          level = e;
          due = h.due;
        }))
        (λ _. Keeps-raise _)

  pub set_share_track-IsValid :
      (b : Option Bool) (c : PrivacySettings)
      → IsValid user_id c
      → IsValid user_id (set_share_track b c)
  set_share_track-IsValid none c h = h
  set_share_track-IsValid (some b) c h = record {
    owner = h.owner;
    visibility = h.visibility;
    radius = h.radius;
    level = h.level;
    due = h.due;
  }

  pub set_paused_field-IsValid :
      (b : Option Bool) (c : PrivacySettings)
      → IsValid user_id c
      → IsValid user_id (set_paused_field b c)
  set_paused_field-IsValid none c h = h
  set_paused_field-IsValid (some b) c h = record {
    owner = h.owner;
    visibility = h.visibility;
    radius = h.radius;
    level = h.level;
    due = h.due;
  }

  pub apply_input-IsValid :
      (i : UpdateSettingsInput) (c : PrivacySettings)
      → IsValid user_id c
      → Keeps AllValid (IsValid user_id) (apply_input i c)
  unfolding apply_input
  apply_input-IsValid i c h =
      Keeps-bind _ _ (set_visibility-IsValid i.presence_visibility c h) λ seen hs.
        Keeps-bind _ _
          (set_radius-IsValid i.visibility_radius_m _
            (set_share_track-IsValid i.presence_share_track seen hs))
          λ near hn.
            Keeps-bind _ _ (set_reveal_level-IsValid i.reveal_level near hn)
              λ revealed hr. Keeps-pure _ (set_paused_field-IsValid i.paused revealed hr)
