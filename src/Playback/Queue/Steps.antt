-- ===== src/Playback/Queue/Steps.antt =====
-- Each call on a session takes its queue one step further, or leaves the session as it was.
use smusic.Prelude.Int.{pos, ℤ}
use smusic.Prelude.{
  subst, ◌+◌, String, ◌≡◌, refl, sym, ◌∙◌, ap, true, false, Option, some, List, [], ◌∷◌, arith,
  eq_iff, some-inj,
}
use smusic.Effect.{pure, Env, State, ◌>>=◌}
use smusic.Effect.Keeps.{
  Keeps, Keeps-fetch, Keeps-bind, Keeps-then, Keeps-pure, Keeps-done, Keeps-or_raise, Keeps-guard,
  Keeps-guarded, Keeps-now, Keeps-new_id, Keeps-store,
}
use smusic.Effect.Moves.{
  Moves, Moved, Moves-after, Moves-before, Moves-catch, Moves-raise, Moves-store,
}
use smusic.Playback.Domain.{SessionState, Stored, World, Playback, context, save, load}
use smusic.Playback.Service
use smusic.Playback.Service.{Deps, enqueued}
use smusic.Playback.Frame.{live-eq-some, context-Kept, load_track-Kept, check_tracks-Kept}
use smusic.Playback.Queue.{
  Control, queue_after, rest_of, perform, Stays, HasQueue, pauses, skips, plays, seeks, enqueues,
}

module _ (env : Env) (deps : Deps) (id : String) (k : Stored) (own : k.state.session_id ≡ id) where
  load-Own : Keeps (Stays id k) (λ q. q ≡ k.state) (load env id)
  unfolding load
  load-Own =
      Keeps-bind {Q = λ (o : Option SessionState). (q : SessionState) → o ≡ some q → q ≡ k.state} _
        _
        (Keeps-fetch env _ _ (λ t w h q e.
          let (stored, there, same) = live-eq-some t (w.sessions id) q e in
          sym same ∙ ap (λ x. x.state) (some-inj (sym there ∙ h))))
        (λ o found. Keeps-or_raise _ o found)

  get_owned_session-Own :
      (user_id : String)
      → Keeps (Stays id k) (λ q. q ≡ k.state) (Service.get_owned_session env deps id user_id)
  unfolding Service.get_owned_session
  get_owned_session-Own user_id = Keeps-guarded _ _ _ λ named.
      Keeps-bind _ _ (context-Kept _ _ load-Own)
        λ q same. Keeps-guarded _ _ _ λ owns. Keeps-pure q same

  module _ (queue : List String) where
    -- A state of the same session, with the new queue.
    abbrev Next : SessionState → Type 0
    Next q = (q.session_id ≡ id) × (q.queue ≡ queue) × (q.user_id ≡ k.state.user_id)

    save-Moves :
        (q : SessionState)
        → Next q
        → Moves (Stays id k) (HasQueue id k queue) (save env q deps.session_ttl)
    unfolding save
    save-Moves q fits = Moves-store env _ _ λ t w h. (
      record { state = q; expires_at = t + deps.session_ttl },
      ground (arith, fits.0, (eq_iff q.session_id id).1 fits.0),
      fits.1,
      fits.2,
    )

    save_and_record-Moves :
        (q : SessionState) (track_id : String)
        → Next q
        → Moves (Stays id k) (HasQueue id k queue) (Service.save_and_record env deps q track_id)
    unfolding Service.save_and_record
    save_and_record-Moves q track_id fits =
        Moves-before _ _ (Moves-catch _ _ (save-Moves q fits))
          λ _. Keeps-then _ _ (Keeps-new_id env) λ _. Keeps-store env _ _ (λ t w h. h)

    saved-Moves :
        (text : String) (q : SessionState) (b : SessionState)
        → Next q
        → Moves
            (Stays id k)
            (HasQueue id k queue)
            (context text (save env q deps.session_ttl) >>= λ _. pure b)
    saved-Moves text q b fits =
        Moves-before _ _ (Moves-catch _ _ (save-Moves q fits)) λ _. Keeps-done b

  copy-Next :
      (queue : List String) (q r : SessionState)
      → q ≡ k.state
      → r.session_id ≡ q.session_id
      → r.user_id ≡ q.user_id
      → r.queue ≡ queue
      → Next queue r
  copy-Next queue q r same i u e =
      (i ∙ ap (λ x. x.session_id) same ∙ own, e, u ∙ ap (λ x. x.user_id) same)

  pause-Moves :
      (user_id : String)
      → Moves (Stays id k) (HasQueue id k k.state.queue) (Service.pause env deps id user_id)
  unfolding Service.pause
  pause-Moves user_id = Moves-after _ _ (get_owned_session-Own user_id) λ q same.
      Moves-after _ _ (Keeps-now env) λ time _.
        let r : SessionState = record q { is_playing = false; updated_at = time } in
        saved-Moves k.state.queue _ r _
          (copy-Next k.state.queue q r same refl refl (ap (λ x. x.queue) same))

  seek-Moves :
      (user_id : String) (position_ms : ℤ)
      → Moves
          (Stays id k)
          (HasQueue id k k.state.queue)
          (Service.seek env deps id user_id position_ms)
  unfolding Service.seek
  seek-Moves user_id position_ms = Moves-after _ _ (Keeps-guard _ _) λ _ _.
      Moves-after _ _ (get_owned_session-Own user_id) λ q same.
        Moves-after _ _ (Keeps-now env) λ time _.
          let r : SessionState = record q { position_ms = position_ms; updated_at = time } in
          saved-Moves k.state.queue _ r _
            (copy-Next k.state.queue q r same refl refl (ap (λ x. x.queue) same))

  play-Moves :
      (user_id track_id : String) (position_ms : ℤ)
      → Moves
          (Stays id k)
          (HasQueue id k k.state.queue)
          (Service.play env deps id user_id track_id position_ms)
  unfolding Service.play
  play-Moves user_id track_id position_ms = Moves-after _ _ (Keeps-guard _ _) λ _ _.
      Moves-after _ _ (Keeps-guard _ _) λ _ _.
        Moves-after _ _ (get_owned_session-Own user_id) λ q same.
          Moves-after _ _ (load_track-Kept env deps track_id) λ url _.
            Moves-after _ _ (Keeps-now env) λ time _.
              let r : SessionState = record q {
                track_id = track_id;
                position_ms = position_ms;
                is_playing = true;
                updated_at = time;
              } in
              Moves-before _ _
                (save_and_record-Moves k.state.queue r track_id
                  (copy-Next k.state.queue q r same refl refl (ap (λ x. x.queue) same)))
                (λ _. Keeps-done _)

  advance-Moves :
      (q : SessionState) (queue : List String)
      → q ≡ k.state
      → Moves (Stays id k) (HasQueue id k (rest_of queue)) (Service.advance env deps q queue)
  unfolding Service.advance
  advance-Moves q [] same = Moves-raise _
  advance-Moves q (track_id ∷ rest) same =
      Moves-after _ _ (load_track-Kept env deps track_id) λ url _.
        Moves-after _ _ (Keeps-now env) λ time _.
          let r : SessionState = record q {
            track_id = track_id;
            position_ms = pos 0;
            is_playing = true;
            queue = rest;
            updated_at = time;
          } in
          Moves-before _ _
            (save_and_record-Moves rest r track_id (copy-Next rest q r same refl refl refl))
            (λ _. Keeps-done _)

  next-Moves :
      (user_id : String)
      → Moves
          (Stays id k)
          (HasQueue id k (rest_of k.state.queue))
          (Service.next env deps id user_id)
  unfolding Service.next
  next-Moves user_id = Moves-after _ _ (get_owned_session-Own user_id) λ q same.
      subst
        (λ x.
          Moves (Stays id k) (HasQueue id k (rest_of x.queue)) (Service.advance env deps q q.queue))
        same (advance-Moves q q.queue same)

  enqueued-queue_after :
      (position : String) (track_ids queue : List String)
      → enqueued env deps position track_ids queue ≡ queue_after (enqueues track_ids position) queue
  enqueued-queue_after position track_ids queue = ground arith

  enqueue-Moves :
      (user_id : String) (track_ids : List String) (position : String)
      → Moves
          (Stays id k)
          (HasQueue id k (queue_after (enqueues track_ids position) k.state.queue))
          (Service.enqueue env deps id user_id track_ids position)
  unfolding Service.enqueue
  enqueue-Moves user_id track_ids position = Moves-after _ _ (Keeps-guard _ _) λ _ _.
      Moves-after _ _ (Keeps-guard _ _) λ _ _.
        Moves-after _ _ (get_owned_session-Own user_id) λ q same.
          Moves-after _ _ (check_tracks-Kept env deps track_ids) λ _ _.
            Moves-after _ _ (Keeps-now env) λ time _.
              let queue = queue_after (enqueues track_ids position) k.state.queue in
              let r : SessionState = record q {
                queue = enqueued env deps position track_ids q.queue;
                updated_at = time;
              } in
              saved-Moves queue _ r _ (
                copy-Next queue q r same refl refl (
                  enqueued-queue_after position track_ids q.queue
                  ∙ ap (λ (x : SessionState). queue_after (enqueues track_ids position) x.queue)
                      same))

  done :
      {A : Type 0} {queue : List String} (m : Playback A)
      → Moves (Stays id k) (HasQueue id k queue) m
      → Moves (Stays id k) (HasQueue id k queue) (m >>= λ _. pure tt)
  done m l = Moves-before _ _ l (λ _. Keeps-done tt)

  perform-Moves :
      (user_id : String) (c : Control)
      → Moves
          (Stays id k)
          (HasQueue id k (queue_after c k.state.queue))
          (perform env deps id user_id c)
  unfolding perform
  perform-Moves user_id pauses = done _ (pause-Moves user_id)
  perform-Moves user_id skips = done _ (next-Moves user_id)
  perform-Moves user_id (plays track_id position_ms) =
      done _ (play-Moves user_id track_id position_ms)
  perform-Moves user_id (seeks position_ms) = done _ (seek-Moves user_id position_ms)
  perform-Moves user_id (enqueues track_ids position) =
      done _ (enqueue-Moves user_id track_ids position)

-- A call on a session, if the session is stored under its own id: when it succeeds, the session of
-- the same user is stored with the queue that the list operation gives, for `next` the rest, for
-- `enqueue` with the position "next" the tracks in front, with any other the tracks behind, otherwise
-- the same queue; when it fails, that is so as well or the session is stored as it was.
pub perform-Moved :
    (env : Env) (deps : Deps) (id user_id : String) (k : Stored) (c : Control) (s : State World)
    → k.state.session_id ≡ id
    → s.world.sessions id ≡ some k
    → Moved
        (Stays id k)
        (HasQueue id k (queue_after c k.state.queue))
        (perform env deps id user_id c s)
perform-Moved env deps id user_id k c s own stored =
    (perform-Moves env deps id k own user_id c).at s stored
