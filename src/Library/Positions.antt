-- ===== src/Library/Positions.antt =====
-- Where AddTrack puts a track.
use smusic.Effect.Keeps.{
  Keeps-read, Keeps-found, Keeps-now, Keeps-new_id, Keeps-guard, frame_rules, Any, Keeps,
  Keeps-fetch, Keeps-bind, Keeps-pure,
}
use smusic.Effect.Leads.{Returns-last, Returns-bind, Returns}
use smusic.Library.Frame.{context-Kept, check_track-Kept}
use smusic.Prelude.{
  ltb, ◌&&◌, ap, ℕ, ◌<◌, ◌≤◌, max, String, ◌≡◌, refl, sym, subst, true, Option, none, some, List,
  [], ◌∷◌, All, All-map, arith, str_eq, if◌then◌else◌, Option-cases, Bool-cases, inl, inr,
}
use smusic.Effect.{ok, State, Env}
use smusic.Library.Domain.{PlaylistTrack, World, Deps, position_gap}
use smusic.Library.Repo
use smusic.Library.Repo.{entries_of, max_of}
use smusic.Library.Service
use smusic.Library.Service.{position_start}

-- The bits of 2^62: below, adding the gap has an effect.
abbrev pub position_limit : ℕ
position_limit = 0x43D0000000000000

-- What float64 does to the positions in range.
pub record Arithmetic (deps : Deps) : Type 0 where
  pub half_lt : (x : ℕ) → 0 < x → x < position_limit → deps.half x < x
  pub add_gt : (x : ℕ) → x < position_limit → x < deps.add x position_gap

abbrev pub InRange : List PlaylistTrack → Type 0
InRange es = All (λ e. (0 < e.position) × (e.position < position_limit)) es

-- In front of all entries, or behind them.
abbrev pub Placed : String → ℕ → List PlaylistTrack → Type 0
Placed position place es =
    if str_eq position position_start
    then All (λ e. place < e.position) es
    else All (λ e. e.position < place) es

max_of-none : (es : List PlaylistTrack) → max_of es ≡ none → es ≡ []
max_of-none [] h = refl
max_of-none (e ∷ es) h = elim (Option-cases (max_of es)) [
  | inl k ↦ absurd (ground (arith, h, k))
  | inr (n, k) ↦ absurd (ground (arith, h, k))
]

max_of-cons :
    (e : PlaylistTrack) (es : List PlaylistTrack) (m n : ℕ)
    → max_of (e ∷ es) ≡ some m
    → max_of es ≡ some n
    → m ≡ max e.position n
max_of-cons e es m n h k = ground (arith, h, k)

max_of-single :
    (e : PlaylistTrack) (es : List PlaylistTrack) (m : ℕ)
    → max_of (e ∷ es) ≡ some m
    → max_of es ≡ none
    → m ≡ e.position
max_of-single e es m h k = ground (arith, h, k)

-- The maximum is reached in range and no entry lies behind it.
max_of-All :
    (es : List PlaylistTrack) (m : ℕ)
    → max_of es ≡ some m
    → InRange es
    → All (λ e. e.position ≤ m) es × (m < position_limit)
max_of-All [] m h range = cc
max_of-All (e ∷ es) m h range = elim (Option-cases (max_of es)) [
  | inl k ↦
      let same = max_of-single e es m h k in
      (
        (omega (arith, same), subst (All (λ x. x.position ≤ m)) (sym (max_of-none es k)) tt),
        omega (arith, same, range.0.1),
      )
  | inr (n, k) ↦
      let same = max_of-cons e es m n h k in
      let (least, below) = max_of-All es n k range.1 in
      (
        (
          omega (arith, same),
          All-map (λ x. x.position ≤ n) (λ x. x.position ≤ m) (λ x le. omega (arith, same, le)) es
              least,
        ),
        omega (arith, same, below, range.0.1),
      )
]

module _ (env : Env) (deps : Deps) (floats : Arithmetic deps) (playlist_id : String)
    (es : List PlaylistTrack) (range : InRange es) where
  abbrev Same : World → Type 0
  Same w = entries_of playlist_id w ≡ es

  position_before-first :
      (items : List PlaylistTrack)
      → deps.by_position es ≡ items
      → All (λ e. Service.position_before env deps items < e.position) es
  position_before-first [] h = subst (All _) (sym (deps.by_position-nil es h)) tt
  position_before-first (first ∷ rest) h =
      let inside : (ltb 0 first.position && ltb first.position position_limit) ≡ true =
        deps.by_position-among es first rest
          (λ e. ltb 0 e.position && ltb e.position position_limit) h
          (All-map _ _ (λ e r. ground (arith, r)) es range) in
      let smaller =
        floats.half_lt first.position (ground (arith, inside)) (ground (arith, inside)) in
      All-map _ _ (λ e le. omega (arith, smaller, le)) es (deps.by_position-least es first rest h)

  position_after-last :
      (last : Option ℕ)
      → max_of es ≡ last
      → All (λ e. e.position < Service.position_after env deps last) es
  position_after-last none h = subst (All _) (sym (max_of-none es h)) tt
  position_after-last (some m) h =
      let (least, below) = max_of-All es m h range in
      let larger = floats.add_gt m below in All-map _ _ (λ e le. omega (arith, larger, le)) es least

  compute_position-Placed :
      (position : String)
      → Keeps Same
          (λ place. Placed position place es)
          (Service.compute_position env deps playlist_id position)
  unfolding Service.compute_position Repo.list_entries Repo.max_position
  compute_position-Placed position = elim (Bool-cases (str_eq position position_start)) [
    | inl e ↦ rw e (
        Keeps-bind {Q = λ (items : List PlaylistTrack). deps.by_position es ≡ items} _ _
          (context-Kept _ _ (Keeps-fetch env _ _ (λ t w h. ap deps.by_position (sym h))))
          (λ items h. Keeps-pure _ (position_before-first items h)))
    | inr e ↦ rw e (
        Keeps-bind {Q = λ (last : Option ℕ). max_of es ≡ last} _ _
          (context-Kept _ _ (Keeps-fetch env _ _ (λ t w h. ap max_of (sym h))))
          (λ last h. Keeps-pure _ (position_after-last last h)))
  ]

  get_owned_playlist-Same :
      (requester_id : String)
      → Keeps Same Any (Service.get_owned_playlist env deps playlist_id requester_id)
  unfolding Service.get_owned_playlist Service.get_playlist Repo.get_by_id
  get_owned_playlist-Same requester_id =
      search (frame_rules, context-Kept, Keeps-read, Keeps-found) depth 30

  add_track-Returns :
      (requester_id track_id position : String)
      → Returns Same
          (λ pt. Placed position pt.position es)
          (Service.add_track env deps playlist_id requester_id track_id position)
  unfolding Service.add_track
  add_track-Returns requester_id track_id position = Returns-bind _ _ (Keeps-guard _ _) λ _ _.
      Returns-bind _ _ (get_owned_playlist-Same requester_id) λ _ _.
        Returns-bind _ _ (check_track-Kept env deps track_id) λ _ _.
          Returns-bind _ _ (compute_position-Placed position) λ place placed.
            Returns-bind _ _ (Keeps-new_id env)
              λ _ _. Returns-bind _ _ (Keeps-now env) λ _ _. Returns-last _ _ placed

-- A track that is added at the start has a position before those of all entries that the playlist
-- had, and one that is added anywhere else behind them, if those positions are positive and less than
-- 2^62.
pub add_track-Placed :
    (env : Env) (deps : Deps)
    → Arithmetic deps
    → (playlist_id requester_id track_id position : String) (s t : State World) (pt : PlaylistTrack)
    → InRange (entries_of playlist_id s.world)
    → Service.add_track env deps playlist_id requester_id track_id position s ≡ ok pt t
    → Placed position pt.position (entries_of playlist_id s.world)
add_track-Placed env deps floats playlist_id requester_id track_id position s t pt range h =
    (add_track-Returns env deps floats playlist_id (entries_of playlist_id s.world) range
        requester_id track_id position).at
      s t pt refl h
