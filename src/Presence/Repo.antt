-- ===== src/Presence/Repo.antt =====
-- backend/internal/presence/postgres/repo.go: each method is one SQL statement, which the database
-- applies whole or not at all. `now()` in a statement is the database's clock.
use smusic.Prelude.{
  ℕ, String, Bool, true, false, ◌&&◌, ◌||◌, Option, none, some, [], ◌∷◌, ◌++◌, if◌then◌else◌,
  str_eq, assign,
}
use smusic.Effect.{Env, ◌>>=◌, fetch, store, or_raise, raise}
use smusic.Presence.Domain.{
  PrivacySettings, AuditLogEntry, failed, settings_not_found, cannot_block_self,
}
use smusic.Presence.World.{Presence, context}

abbrev pub upsert_row : ℕ → PrivacySettings → Option PrivacySettings → PrivacySettings
upsert_row time s none = record s { created_at = time; updated_at = time }
upsert_row time s (some old) = record s { created_at = old.created_at; updated_at = time }

-- A row of `user_blocks` or `follows`.
abbrev pub set_pair : Bool → String → String → (String → String → Bool) → String → String → Bool
set_pair v a b table x y = if str_eq a x && str_eq b y then v else table x y

module _ (env : Env) where
  unfoldable pub get : String → Presence PrivacySettings
  get user_id = do
    row ← fetch env (failed "query row") (λ _ w. w.settings user_id)
    or_raise settings_not_found row

  unfoldable pub upsert : PrivacySettings → Presence Unit
  upsert s = store env (failed "exec") λ time w. record w {
    settings = assign w.settings s.user_id (some (upsert_row time s (w.settings s.user_id)));
  }

  -- The table's CHECK constraint refuses a row with the same user twice.
  unfoldable pub block : String → String → Presence Unit
  block blocker_id blocked_id =
      if str_eq blocker_id blocked_id
      then raise cannot_block_self
      else store env (failed "exec")
          (λ _ w. record w { blocks = set_pair true blocker_id blocked_id w.blocks })

  unfoldable pub unblock : String → String → Presence Unit
  unblock blocker_id blocked_id =
      store env (failed "exec")
        (λ _ w. record w { blocks = set_pair false blocker_id blocked_id w.blocks })

  unfoldable pub is_blocked_either_way : String → String → Presence Bool
  is_blocked_either_way a b = fetch env (failed "query row") (λ _ w. w.blocks a b || w.blocks b a)

  unfoldable pub is_mutual_follow : String → String → Presence Bool
  is_mutual_follow a b = fetch env (failed "query row") (λ _ w. w.follows a b && w.follows b a)

  unfoldable pub append : AuditLogEntry → Presence Unit
  append e =
      context "presence/postgres: append audit log"
        (store env (failed "exec") (λ _ w. record w { audit = w.audit ++ e ∷ [] }))
