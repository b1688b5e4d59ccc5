-- ===== src/Library/Order.antt =====
-- The order of `ORDER BY added_at DESC, track_id DESC` in backend/internal/library/postgres/repo.go,
-- which its cursor `(added_at, track_id) < (...)` follows.
use smusic.Prelude.{◌≡◌, refl, Bool, true, false, ◌&&◌, ◌||◌, ltb, ◌==◌, arith, String}
use smusic.Paging.{Order}
use smusic.Library.Domain.{SavedKey, Deps}

module _ (ids : Order String) where
  abbrev pub saved_before : SavedKey → SavedKey → Bool
  saved_before a b =
      ltb b.added_at a.added_at || ((a.added_at == b.added_at) && ids.lt b.track_id a.track_id)

  pub saved_before_irrefl : (a : SavedKey) → saved_before a a ≡ false
  saved_before_irrefl a = ground (arith, ids.irrefl a.track_id)

  pub saved_before_trans :
      (a b c : SavedKey)
      → saved_before a b ≡ true
      → saved_before b c ≡ true
      → saved_before a c ≡ true
  saved_before_trans a b c h k = ground (arith, h, k, ids.trans c.track_id b.track_id a.track_id)

  pub saved_before-connected :
      (a b : SavedKey) → saved_before a b ≡ false → saved_before b a ≡ false → a ≡ b
  saved_before-connected a b h k =
      let at : a.added_at ≡ b.added_at = ground (arith, h, k) in
      let id : a.track_id ≡ b.track_id =
        ids.connected a.track_id b.track_id (ground (arith, k, at)) (ground (arith, h, at)) in
      rw (at, id) refl

abbrev pub saved_order : Deps → Order SavedKey
saved_order deps = record {
  lt = saved_before deps.track_id_order;
  irrefl = saved_before_irrefl deps.track_id_order;
  trans = saved_before_trans deps.track_id_order;
  connected = saved_before-connected deps.track_id_order;
}
