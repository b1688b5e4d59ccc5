-- ===== src/Effect.antt =====
-- How the services reach the outside: every repository, cache, clock and generator stands behind an
-- interface (backend/internal/platform/clock/clock.go, backend/internal/platform/idgen/idgen.go and
-- the repo.go of each module). An action runs on the state of its module and on a counter of the
-- interactions so far; the environment says what each interaction meets.
pub mod Keeps
pub mod Leads
pub mod Undone
pub mod Moves
use smusic.Prelude.{
  ap, arith, ℕ, suc, String, ◌≡◌, refl, Bool, true, false, Option, none, some, if◌then◌else◌,
}

-- What the environment answers at each interaction: the time, whether the call fails, the next
-- generated identifier.
pub record Env : Type 0 where
  pub clock : ℕ → ℕ
  pub fault : ℕ → Bool
  pub fresh_id : ℕ → String

pub record State {ℓ} (W : Type ℓ) : Type ℓ where
  pub tick : ℕ
  pub world : W

-- A Go method with an error result: it returns a value or an error, and in both cases the state
-- that its writes left.
pub data Outcome {ℓ} (W E A : Type ℓ) : Type ℓ where
  ok : A → State W → Outcome W E A
  err : E → State W → Outcome W E A

abbrev pub Act {ℓ} : Type ℓ → Type ℓ → Type ℓ → Type ℓ
Act W E A = State W → Outcome W E A

abbrev pub bump {ℓ} : {W : Type ℓ} → State W → State W
bump s = record s { tick = suc s.tick }

abbrev pub state_of {ℓ} : {W E A : Type ℓ} → Outcome W E A → State W
state_of (ok a s) = s
state_of (err e s) = s

abbrev pub world_of {ℓ} : {W E A : Type ℓ} → Outcome W E A → W
world_of o = (state_of o).world

-- The value, if there is one.
abbrev pub answer_of {ℓ} : {W E A : Type ℓ} → Outcome W E A → Option A
answer_of (ok a s) = some a
answer_of (err e s) = none

abbrev pub IsErr {ℓ} : {W E A : Type ℓ} → Outcome W E A → Type 0
IsErr (ok a s) = ⊥
IsErr (err e s) = Unit

module _ {W E A : Type 0} where
  unfoldable pub pure : A → Act W E A
  pure a s = ok a s

  unfoldable pub raise : E → Act W E A
  raise e s = err e s

  -- A value that is there, or the error for a missing one.
  unfoldable pub or_raise : E → Option A → Act W E A
  or_raise e none s = err e s
  or_raise e (some a) s = ok a s

  -- `if err != nil { ... }`: the handler goes on from the state that the failed call left.
  abbrev pub rescue : Outcome W E A → (E → Act W E A) → Outcome W E A
  rescue (ok a s) h = ok a s
  rescue (err e s) h = h e s

  unfoldable pub catch : Act W E A → (E → Act W E A) → Act W E A
  catch m h s = rescue (m s) h

module _ {W E : Type 0} where
  -- `if !test { return ..., e }`
  unfoldable pub guard : Bool → E → Act W E Unit
  guard true e s = ok tt s
  guard false e s = err e s

  -- `_ = f()`: the error is dropped and the writes stay.
  unfoldable pub best_effort : Act W E Unit → Act W E Unit
  best_effort m s = ok tt (state_of (m s))

module _ {W E : Type 0} (env : Env) where
  -- clock.Clock.Now
  unfoldable pub now : Act W E ℕ
  now s = ok (env.clock s.tick) (bump s)

  -- idgen.Generator.NewID
  unfoldable pub new_id : Act W E String
  new_id s = ok (env.fresh_id s.tick) (bump s)

  -- A call that reads: it fails with `e`, or answers from the state at the server's time.
  unfoldable pub fetch : {A : Type 0} → E → (ℕ → W → A) → Act W E A
  fetch e f s =
      if env.fault s.tick then err e (bump s) else ok (f (env.clock s.tick) s.world) (bump s)

  -- A call that writes: it fails with `e` and writes nothing, or is applied whole.
  unfoldable pub store : E → (ℕ → W → W) → Act W E Unit
  store e f s =
      if env.fault s.tick
      then err e (bump s)
      else ok tt (record { tick = suc s.tick; world = f (env.clock s.tick) s.world })

module _ {W E A B : Type 0} where
  abbrev pub resume : Outcome W E A → (A → Act W E B) → Outcome W E B
  resume (ok a s) f = f a s
  resume (err e s) f = err e s

  infixl 5 ◌>>=◌
  -- Opening this opens the actions above too.
  unfoldable pub ◌>>=◌ : Act W E A → (A → Act W E B) → Act W E B
  unfolding pure raise or_raise catch guard best_effort now new_id fetch store
  ◌>>=◌ m f s = resume (m s) f

  resume-eq-ok :
      (r : Outcome W E A) (f : A → Act W E B) {t : State W} {b : B}
      → resume r f ≡ ok b t
      → (a : A) × (u : State W) × (r ≡ ok a u) × (f a u ≡ ok b t)
  resume-eq-ok (ok a s) f h = (a, s, refl, h)
  resume-eq-ok (err e s) f h = cc

  -- A successful chain ran both of its parts.
  pub >>=-eq-ok :
      (m : Act W E A) (f : A → Act W E B) (s : State W) {t : State W} {b : B}
      → (m >>= f) s ≡ ok b t
      → (a : A) × (u : State W) × (m s ≡ ok a u) × (f a u ≡ ok b t)
  unfolding ◌>>=◌
  >>=-eq-ok m f s h = resume-eq-ok (m s) f h

module _ {W E A B : Type 0} where
  -- After an action that succeeds, the rest of the chain is what is left.
  pub >>=-ok :
      (m : Act W E A) (f : A → Act W E B) (s : State W) {a : A} {t : State W}
      → m s ≡ ok a t
      → (m >>= f) s ≡ f a t
  unfolding ◌>>=◌
  >>=-ok m f s h = ap (λ r. resume r f) h

pub pure-eq-ok :
    {W E A : Type 0} (a : A) (s : State W) {t : State W} {b : A}
    → pure {E = E} a s ≡ ok b t
    → (a ≡ b) × (s ≡ t)
unfolding pure
pure-eq-ok a s h = ground arith

module _ {W E B : Type 0} where
  infixl 5 ◌>>◌
  abbrev pub ◌>>◌ : Act W E Unit → Act W E B → Act W E B
  m >> k = m >>= λ _. k

-- What an action that succeeded says of its test and of the state.
module _ {W E : Type 0} where
  pub guard-eq-ok :
      (b : Bool) (e : E) (s : State W) {t : State W} {u : Unit}
      → guard b e s ≡ ok u t
      → (b ≡ true) × (s ≡ t)
  unfolding guard
  guard-eq-ok true e s h = (refl, ground arith)
  guard-eq-ok false e s h = cc

  pub now-eq-ok :
      (env : Env) (s : State W) {t : State W} {n : ℕ}
      → now {E = E} env s ≡ ok n t
      → (env.clock s.tick ≡ n) × (bump s ≡ t)
  unfolding now
  now-eq-ok env s h = ground arith

  pub new_id-eq-ok :
      (env : Env) (s : State W) {t : State W} {id : String}
      → new_id {E = E} env s ≡ ok id t
      → (env.fresh_id s.tick ≡ id) × (bump s ≡ t)
  unfolding new_id
  new_id-eq-ok env s h = ground arith
