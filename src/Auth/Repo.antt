-- ===== src/Auth/Repo.antt =====
-- backend/internal/auth/postgres/repo.go: each method is one SQL statement. The keys are those of
-- backend/migrations/0001_init.up.sql: an insert that would repeat a primary key or a unique column
-- fails and writes nothing.
use smusic.Prelude.{
  find, suc, ℕ, String, Bool, ◌&&◌, ◌||◌, Option, none, some, List, [], ◌∷◌, ◌++◌, map,
  if◌then◌else◌, any, str_eq,
}
use smusic.Effect.{State, Outcome, ok, err, bump, Env, pure, ◌>>=◌, or_raise, fetch, store, new_id}
use smusic.Auth.Domain.{
  User, Identity, Device, RefreshToken, Error, email_taken, user_not_found, identity_not_linked,
  invalid_refresh_token, failed, World, Auth,
}

abbrev pub has_hash : String → RefreshToken → Bool
has_hash token_hash rt = str_eq rt.token_hash token_hash

-- The row of `GetByHash`.
abbrev pub row_of : String → List RefreshToken → Option RefreshToken
row_of token_hash = find (has_hash token_hash)

-- SET revoked_at = at WHERE revoked_at IS NULL, on one row.
abbrev pub revoke_row : ℕ → RefreshToken → RefreshToken
revoke_row at rt = elim rt.revoked_at [ none ↦ record rt { revoked_at = some at } | some _ ↦ rt ]

abbrev pub revoke_id : String → ℕ → RefreshToken → RefreshToken
revoke_id id at rt = if str_eq rt.id id then revoke_row at rt else rt

abbrev pub revoke_user : String → ℕ → RefreshToken → RefreshToken
revoke_user user_id at rt = if str_eq rt.user_id user_id then revoke_row at rt else rt

abbrev pub replace_id : String → String → ℕ → RefreshToken → RefreshToken
replace_id old_id new_id at rt =
    if str_eq rt.id old_id then record rt { replaced_by = new_id; revoked_at = some at } else rt

-- Whether an insert of `rt` would break a key of the table.
abbrev pub conflicts : RefreshToken → List RefreshToken → Bool
conflicts rt = any (λ r. str_eq r.id rt.id || str_eq r.token_hash rt.token_hash)

abbrev same_device : Device → Device → Bool
same_device d e = str_eq e.user_id d.user_id && str_eq e.platform d.platform

abbrev refreshed : Device → Device → Device
refreshed d e =
    if same_device d e
    then record e {
      push_token = d.push_token;
      app_version = d.app_version;
      last_seen_at = d.last_seen_at;
    }
    else e

module _ (env : Env) where
  -- A statement that a key of the table may refuse.
  insert : Error → (World → Bool) → (World → World) → Auth Unit
  insert conflict refused write s =
      if env.fault s.tick
      then err (failed "exec") (bump s)
      else if refused s.world
      then err conflict (bump s)
      else ok tt (record { tick = suc s.tick; world = write s.world })

  unfoldable pub create : User → Auth Unit
  unfolding insert
  create u =
      insert email_taken (λ w. any (λ v. str_eq v.id u.id || str_eq v.email u.email) w.users)
        (λ w. record w { users = w.users ++ u ∷ [] })

  unfoldable pub get_by_email : String → Auth User
  get_by_email email = do
    row ← fetch env (failed "query row") (λ _ w. find (λ u. str_eq u.email email) w.users)
    or_raise user_not_found row

  unfoldable pub get_by_id : String → Auth User
  get_by_id id = do
    row ← fetch env (failed "query row") (λ _ w. find (λ u. str_eq u.id id) w.users)
    or_raise user_not_found row

  unfoldable pub get_user_id_by_provider : String → String → Auth String
  get_user_id_by_provider provider provider_user_id = do
    row ← fetch env (failed "query row") λ _ w.
        find (λ i. str_eq i.provider provider && str_eq i.provider_user_id provider_user_id)
          w.identities
    identity ← or_raise identity_not_linked row
    pure identity.user_id

  unfoldable pub link : Identity → Auth Unit
  unfolding insert
  link identity =
      insert (failed "exec")
        (λ w.
          any
            (λ i.
              str_eq i.id identity.id
              || (str_eq i.provider identity.provider
                  && str_eq i.provider_user_id identity.provider_user_id))
            w.identities)
        (λ w. record w { identities = w.identities ++ identity ∷ [] })

  upserted : Device → State World → Option Device → Outcome World Error String
  upserted d s none =
      let id = env.fresh_id s.tick in
      ok id (record {
        tick = suc s.tick;
        world = record s.world { devices = s.world.devices ++ record d { id = id } ∷ [] };
      })
  upserted d s (some e) = ok e.id (record {
    tick = suc s.tick;
    world = record s.world { devices = map (refreshed d) s.world.devices };
  })

  -- INSERT ... ON CONFLICT (user_id, platform) DO UPDATE ... RETURNING id; the database draws the id
  -- of a new row.
  unfoldable pub upsert : Device → Auth String
  unfolding upserted
  upsert d s =
      if env.fault s.tick
      then err (failed "query row") (bump s)
      else upserted d s (find (same_device d) s.world.devices)

  unfoldable pub store_token : RefreshToken → Auth Unit
  unfolding insert
  store_token rt =
      insert (failed "exec") (λ w. conflicts rt w.tokens)
        (λ w. record w { tokens = w.tokens ++ rt ∷ [] })

  unfoldable pub get_by_hash : String → Auth RefreshToken
  get_by_hash token_hash = do
    row ← fetch env (failed "query row") (λ _ w. row_of token_hash w.tokens)
    or_raise invalid_refresh_token row

  unfoldable pub revoke : String → ℕ → Auth Unit
  revoke id at =
      store env (failed "exec") (λ _ w. record w { tokens = map (revoke_id id at) w.tokens })

  unfoldable pub mark_replaced : String → String → ℕ → Auth Unit
  mark_replaced old_id new_id at =
      store env (failed "exec")
        (λ _ w. record w { tokens = map (replace_id old_id new_id at) w.tokens })

  unfoldable pub revoke_all_for_user : String → ℕ → Auth Unit
  revoke_all_for_user user_id at =
      store env (failed "exec") (λ _ w. record w { tokens = map (revoke_user user_id at) w.tokens })
