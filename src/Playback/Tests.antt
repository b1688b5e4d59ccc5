-- ===== src/Playback/Tests.antt =====
-- Concrete runs of playback: a session of one user, what another user tries, and a link.
use smusic.Prelude.{
  Bool-cases, inl, inr, some-inj, ap, sym, eq_iff, ◌∙◌, ℕ, zero, suc, String, str_append, ◌≡◌, refl,
  true, false, none, some, List, [], ◌∷◌, apart, arith, str_eq, leb, if◌then◌else◌,
}
use Prim.Native.String.{len}
use text.Mathlib.TextPositions.{len-append}
use smusic.Prelude.Int.{pos}
use smusic.Effect.{Env, State}
use smusic.Effect.Moves.{Moved}
use smusic.Playback.Domain.{Stored, World}
use smusic.Playback.Service.{Deps}
use smusic.Playback.Calls.{Request, run, skips, enqueues}
use smusic.Playback.Ownership.{IsKeyed, run-sessions}
use smusic.Playback.Queue
use smusic.Playback.Queue.{Stays, HasQueue, queue_after, perform}
use smusic.Playback.Queue.Steps.{perform-Moved}
use smusic.Playback.Resolver.{Signing, resolve, verify, link, resolve-verify}

abbrev name : ℕ → String
name zero = ""
name (suc n) = str_append "i" (name n)

abbrev env : Env
env = record { clock = λ n. n; fault = λ _. false; fresh_id = λ _. "x" }

abbrev deps : Deps
deps = record {
  track_exists = λ _ id. some true;
  resolve = λ n id. some (record { url = id; expires_at = n });
  session_ttl = 100;
}

abbrev session : Stored
session = record {
  state = record {
    session_id = "s";
    user_id = "ana";
    device_id = "d";
    track_id = "";
    position_ms = pos 0;
    is_playing = false;
    queue = "t1" ∷ "t2" ∷ [];
    updated_at = 0;
  };
  expires_at = 100;
}

abbrev start : State World
start = record {
  tick = 1;
  world = record { sessions = λ id. if str_eq id "s" then some session else none; events = [] };
}

start-IsKeyed : IsKeyed start.world
start-IsKeyed id k h = elim (Bool-cases (str_eq id "s")) [
  | inl e ↦
      let same : session ≡ k = some-inj (ground (arith, h, e)) in
      ap (λ (x : Stored). x.state.session_id) (sym same) ∙ sym ((eq_iff id "s").0 e)
  | inr e ↦ absurd (ground (arith, h, e))
]

abbrev meddling : List Request
meddling =
    record { user_id = "bia"; call = skips "s" }
    ∷ record { user_id = "bia"; call = enqueues "s" ("t9" ∷ []) "next" }
    ∷ []

run-sessions_example : (run env deps start meddling).world.sessions "s" ≡ some session
run-sessions_example =
    run-sessions env deps "s" session start meddling (λ n. apart "x" "s" refl) start-IsKeyed refl
      (apart "bia" "ana" refl, (apart "bia" "ana" refl, tt))

perform-Moved_example :
    Moved
      (Stays "s" session)
      (HasQueue "s" session ("t2" ∷ []))
      (perform env deps "s" "ana" Queue.skips start)
perform-Moved_example = perform-Moved env deps "s" "ana" session Queue.skips start refl refl

abbrev signing : Signing
signing = record {
  base_url = "http://localhost/media";
  mac = λ t. str_append "#" t;
  ttl = 600;
  unix = λ n. n;
  format_int = name;
  parse_int = λ t. some (len t);
}

reads : (n : ℕ) → some (len (name n)) ≡ some n
reads n = ap some (len-name n)
  where
    len-name : (n : ℕ) → len (name n) ≡ n
    len-name zero = refl
    len-name (suc n) = omega (arith, len-append "i" (name n), len-name n)

resolve-verify_example :
    (exp : String) × (sig : String) × ((resolve signing "t1" 5).url ≡ link signing "t1" exp sig)
    × (verify signing "t1" exp sig 605 ≡ leb 605 (resolve signing "t1" 5).expires_at)
resolve-verify_example = resolve-verify signing reads "t1" 5 605
