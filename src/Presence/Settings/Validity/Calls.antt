-- ===== src/Presence/Settings/Validity/Calls.antt =====
-- Every call of backend/internal/presence/settings_service.go keeps the stored rows valid.
use smusic.Presence.Settings.Validity.{IsValid, AllValid, default-IsValid}
use smusic.Presence.Settings.Validity.Input.{apply_input-IsValid}
use smusic.Prelude.{
  ◌∷◌, [], List, if◌then◌else◌, false, ◌+◌, some-inj, subst, ℕ, String, inl, inr, Bool-cases, ◌≡◌,
  refl, Bool, true, Option, none, some, arith, str_eq, eq_iff, assign,
}
use smusic.Effect.{state_of, ◌>>=◌, pure, fetch, Env, State, Outcome, ok, err, world_of}
use smusic.Effect.Keeps.{
  Post-world, Keeps-now, Keeps-guard, Keeps, Post, Any, keeps_rules, Keeps-pure, Keeps-raise,
  Keeps-catch, Keeps-bind, Keeps-fetch, Keeps-or_raise,
}
use smusic.Presence.Domain.{
  PrivacySettings, Error, Floats, settings_not_found, failed, consent_validity_period,
}
use smusic.Presence.World.{World, Presence, context}
use smusic.Presence.Repo
use smusic.Presence.Repo.{upsert_row}
use smusic.Presence.GeoIndex
use smusic.Presence.Settings.{
  block, unblock, unblocks, blocks, updates, pauses, grants, revokes, Call, set_paused, run, serve,
  revoke_consent, grant_consent, UpdateSettingsInput, get, update, remove_from_index, or_default,
}

context-Keeps :
    {A : Type 0} (P : World → Type 0) (Q : A → Type 0) (text : String) (m : Presence A)
    → Keeps P Q m
    → Keeps P Q (context text m)
context-Keeps P Q text m k = Keeps-catch m _ k (λ e. Keeps-raise _)

module _ (env : Env) (fl : Floats) (has_index : Bool) where
  Repo_get-IsValid : (user_id : String) → Keeps AllValid (IsValid user_id) (Repo.get env user_id)
  unfolding Repo.get
  Repo_get-IsValid user_id =
      Keeps-bind {Q = λ o. (s : PrivacySettings) → o ≡ some s → IsValid user_id s} _ _
        (Keeps-fetch env _ _ (λ _ w h. h.row user_id)) (λ o k. Keeps-or_raise _ o k)

  assign-AllValid :
      (user_id : String) (s : PrivacySettings) (w : World)
      → IsValid user_id s
      → AllValid w
      → AllValid (record w { settings = assign w.settings user_id (some s) })
  assign-AllValid user_id s w h all = record {
    row = λ u r e. elim (Bool-cases (str_eq user_id u)) [
      | inl same ↦
          subst (λ v. IsValid v r) ((eq_iff user_id u).0 same)
            (subst (IsValid user_id) (some-inj (rw same at e)) h)
      | inr other ↦ all.row u r (rw other at e)
    ];
  }

  upsert_row-IsValid :
      (user_id : String) (s : PrivacySettings) (time : ℕ) (old : Option PrivacySettings)
      → IsValid user_id s
      → IsValid user_id (upsert_row time s old)
  upsert_row-IsValid user_id s time none h = record {
    owner = h.owner;
    visibility = h.visibility;
    radius = h.radius;
    level = h.level;
    due = h.due;
  }
  upsert_row-IsValid user_id s time (some old) h = record {
    owner = h.owner;
    visibility = h.visibility;
    radius = h.radius;
    level = h.level;
    due = h.due;
  }

  upsert-AllValid :
      (user_id : String) (s : PrivacySettings)
      → IsValid user_id s
      → Keeps AllValid Any (Repo.upsert env s)
  unfolding Repo.upsert ◌>>=◌
  upsert-AllValid user_id s h = record { at = λ w all. ground (arith, written w all) }
    where
      written :
          (w : State World)
          → AllValid w.world
          → AllValid (record w.world {
            settings =
                assign w.world.settings s.user_id
                  (some (upsert_row (env.clock w.tick) s (w.world.settings s.user_id)));
          })
      written w all =
          assign-AllValid s.user_id _ w.world
            (upsert_row-IsValid s.user_id s (env.clock w.tick) (w.world.settings s.user_id)
              (record {
                owner = refl;
                visibility = h.visibility;
                radius = h.radius;
                level = h.level;
                due = h.due;
              }))
            all

  -- Actions that leave the settings table alone.
  untouched-AllValid :
      {A : Type 0} (m : Presence A)
      → ((s : State World) → (world_of (m s)).settings ≡ s.world.settings)
      → Keeps AllValid Any m
  untouched-AllValid {A} m same = record { at = λ s h. post (m s) (moved s h) }
    where
      moved : (s : State World) → AllValid s.world → AllValid (world_of (m s))
      moved s h = record { row = λ u r e. h.row u r (rw (same s) at e) }

      post : (o : Outcome World Error A) → AllValid (world_of o) → Post AllValid Any o
      post (ok a s) h = (h, tt)
      post (err e s) h = h

  settings-remove :
      (user_id : String) (s : State World)
      → (world_of (remove_from_index env fl has_index user_id s)).settings ≡ s.world.settings
  unfolding remove_from_index GeoIndex.remove ◌>>=◌
  settings-remove user_id s = ground arith

  remove-AllValid :
      (user_id : String) → Keeps AllValid Any (remove_from_index env fl has_index user_id)
  remove-AllValid user_id = untouched-AllValid _ (settings-remove user_id)

  or_default-IsValid :
      (user_id : String) (e : Error) → Keeps AllValid (IsValid user_id) (or_default user_id e)
  or_default-IsValid user_id settings_not_found = Keeps-pure _ (default-IsValid user_id)
  or_default-IsValid user_id e = Keeps-raise e

  get-IsValid : (user_id : String) → Keeps AllValid (IsValid user_id) (get env fl has_index user_id)
  unfolding get
  get-IsValid user_id = search (keeps_rules, context-Keeps, Repo_get-IsValid, or_default-IsValid)

  stamp-IsValid :
      (user_id : String) (c : PrivacySettings) (time : ℕ)
      → IsValid user_id c
      → IsValid user_id (record c { updated_at = time })
  stamp-IsValid user_id c time h = record {
    owner = h.owner;
    visibility = h.visibility;
    radius = h.radius;
    level = h.level;
    due = h.due;
  }

  upsert-context :
      (text user_id : String) (s : PrivacySettings)
      → IsValid user_id s
      → Keeps AllValid Any (context text (Repo.upsert env s))
  upsert-context text user_id s h = context-Keeps _ _ text _ (upsert-AllValid user_id s h)

  granted-IsValid :
      (user_id : String) (c : PrivacySettings) (time : ℕ)
      → IsValid user_id c
      → IsValid user_id (record c {
        proximity_consent_enabled = true;
        proximity_consent_ts = some time;
        proximity_consent_renew_due = some (time + consent_validity_period);
        updated_at = time;
      })
  granted-IsValid user_id c time h = record {
    owner = h.owner;
    visibility = h.visibility;
    radius = h.radius;
    level = h.level;
    due = λ _. (time + consent_validity_period, refl);
  }

  revoked-IsValid :
      (user_id : String) (c : PrivacySettings) (time : ℕ)
      → IsValid user_id c
      → IsValid user_id
          (record c { proximity_consent_enabled = false; paused = true; updated_at = time })
  revoked-IsValid user_id c time h = record {
    owner = h.owner;
    visibility = h.visibility;
    radius = h.radius;
    level = h.level;
    due = λ e. cc;
  }

  hide-AllValid :
      (b : Bool) (user_id : String)
      → Keeps AllValid Any (if b then remove_from_index env fl has_index user_id else pure tt)
  hide-AllValid true user_id = remove-AllValid user_id
  hide-AllValid false user_id = Keeps-pure tt tt

  mfa-Keeps :
      (user_id : String)
      → Keeps AllValid Any
          (context "presence: check mfa" (fetch env (failed "mfa") (λ _ w. w.mfa_verified user_id)))
  mfa-Keeps user_id = search (keeps_rules, context-Keeps, Keeps-fetch)

  pub update-AllValid :
      (user_id : String) (i : UpdateSettingsInput)
      → Keeps AllValid (IsValid user_id) (update env fl has_index user_id i)
  unfolding update
  update-AllValid user_id i = Keeps-bind _ _ (Keeps-guard _ _) λ _ _.
      Keeps-bind _ _ (get-IsValid user_id) λ current hc.
        Keeps-bind _ _ (apply_input-IsValid user_id i current hc) λ changed h.
          Keeps-bind _ _ (Keeps-now env) λ time _.
            Keeps-bind _ _ (upsert-context _ user_id _ (stamp-IsValid user_id changed time h))
              λ _ _.
                Keeps-bind _ _ (hide-AllValid _ user_id)
                  λ _ _. Keeps-pure _ (stamp-IsValid user_id changed time h)

  pub grant_consent-AllValid :
      (user_id : String) → Keeps AllValid (IsValid user_id) (grant_consent env fl has_index user_id)
  unfolding grant_consent
  grant_consent-AllValid user_id = Keeps-bind _ _ (Keeps-guard _ _) λ _ _.
      Keeps-bind _ _ (mfa-Keeps user_id) λ has_mfa _. Keeps-bind _ _ (Keeps-guard _ _) λ _ _.
        Keeps-bind _ _ (get-IsValid user_id) λ current h. Keeps-bind _ _ (Keeps-now env) λ time _.
          Keeps-bind _ _ (upsert-context _ user_id _ (granted-IsValid user_id current time h))
            λ _ _. Keeps-pure _ (granted-IsValid user_id current time h)

  pub revoke_consent-AllValid :
      (user_id : String)
      → Keeps AllValid (IsValid user_id) (revoke_consent env fl has_index user_id)
  unfolding revoke_consent
  revoke_consent-AllValid user_id = Keeps-bind _ _ (Keeps-guard _ _) λ _ _.
      Keeps-bind _ _ (get-IsValid user_id) λ current h. Keeps-bind _ _ (Keeps-now env) λ time _.
        Keeps-bind _ _ (upsert-context _ user_id _ (revoked-IsValid user_id current time h)) λ _ _.
          Keeps-bind _ _ (remove-AllValid user_id)
            λ _ _. Keeps-pure _ (revoked-IsValid user_id current time h)

  block-AllValid : (a b : String) → Keeps AllValid Any (block env fl has_index a b)
  unfolding block Repo.block ◌>>=◌
  block-AllValid a b = untouched-AllValid _ λ s. ground arith

  unblock-AllValid : (a b : String) → Keeps AllValid Any (unblock env fl has_index a b)
  unfolding unblock Repo.unblock ◌>>=◌
  unblock-AllValid a b = untouched-AllValid _ λ s. ground arith

  serve-AllValid : (c : Call) → Keeps AllValid Any (serve env fl has_index c)
  unfolding serve set_paused
  serve-AllValid (updates u i) = Keeps-bind _ _ (update-AllValid u i) (λ _ _. Keeps-pure tt tt)
  serve-AllValid (grants u) = Keeps-bind _ _ (grant_consent-AllValid u) (λ _ _. Keeps-pure tt tt)
  serve-AllValid (revokes u) = Keeps-bind _ _ (revoke_consent-AllValid u) (λ _ _. Keeps-pure tt tt)
  serve-AllValid (pauses u b) = Keeps-bind _ _ (update-AllValid u _) (λ _ _. Keeps-pure tt tt)
  serve-AllValid (blocks a b) = block-AllValid a b
  serve-AllValid (unblocks a b) = unblock-AllValid a b

  -- From a table whose rows are valid, any sequence of calls, failing or not, leaves a table whose
  -- rows are valid: each under its owner's key, with an allowed visibility, radius and reveal level,
  -- and with a renewal date wherever consent is on.
  pub run-AllValid :
      (s : State World) (calls : List Call)
      → AllValid s.world
      → AllValid (run env fl has_index s calls).world
  unfolding run
  run-AllValid s [] h = h
  run-AllValid s (c ∷ cs) h =
      run-AllValid (state_of (serve env fl has_index c s)) cs
        (Post-world AllValid Any (serve env fl has_index c s) ((serve-AllValid c).at s h))
