-- ===== src/Effect/Moves.antt =====
-- Actions that take the world one step further when they succeed, and when they fail have either
-- taken that step or not begun it.
use smusic.Prelude.{ℕ, ◌⊎◌, inl, inr, Bool-cases}
use smusic.Effect.{Env, Outcome, Act, State, ok, err, raise, catch, rescue, resume, ◌>>=◌, store}
use smusic.Effect.Keeps.{Keeps, Any, Post}

abbrev pub Moved : {W E A : Type 0} → (W → Type 0) → (W → Type 0) → Outcome W E A → Type 0
Moved P R (ok a s) = R s.world
Moved P R (err e s) = P s.world ⊎ R s.world

pub record Moves {W E A : Type 0} (P R : W → Type 0) (m : Act W E A) : Type 0 where
  pub at : (s : State W) → P s.world → Moved P R (m s)

module _ {W E A B : Type 0} {P R : W → Type 0} where
  -- Before the step, reads.
  pub Moves-after :
      {Q : A → Type 0} (m : Act W E A) (f : A → Act W E B)
      → Keeps P Q m
      → ((a : A) → Q a → Moves P R (f a))
      → Moves P R (m >>= f)
  unfolding ◌>>=◌
  Moves-after {Q = Q} m f k l = record { at = λ s p. go (m s) (k.at s p) }
    where
      go : (o : Outcome W E A) → Post P Q o → Moved P R (resume o f)
      go (ok a s) h = (l a h.1).at s h.0
      go (err e s) h = inl h

  -- After it, whatever keeps what it has reached.
  pub Moves-before :
      (m : Act W E A) (f : A → Act W E B)
      → Moves P R m
      → ((a : A) → Keeps R Any (f a))
      → Moves P R (m >>= f)
  unfolding ◌>>=◌
  Moves-before m f l k = record { at = λ s p. go (m s) (l.at s p) }
    where
      ended : (o : Outcome W E B) → Post R Any o → Moved P R o
      ended (ok b s) h = h.0
      ended (err e s) h = inr h

      go : (o : Outcome W E A) → Moved P R o → Moved P R (resume o f)
      go (ok a s) h = ended (f a s) ((k a).at s h)
      go (err e s) h = h

module _ {W E A : Type 0} {P R : W → Type 0} where
  pub Moves-catch :
      (m : Act W E A) (f : E → E) → Moves P R m → Moves P R (catch m (λ e. raise (f e)))
  unfolding ◌>>=◌
  Moves-catch m f l = record { at = λ s p. go (m s) (l.at s p) }
    where
      go : (o : Outcome W E A) → Moved P R o → Moved P R (rescue o (λ e. raise (f e)))
      go (ok a s) h = h
      go (err e s) h = h

  pub Moves-raise : (e : E) → Moves {A = A} P R (raise e)
  unfolding ◌>>=◌
  Moves-raise e = record { at = λ s p. inl p }

module _ {W E : Type 0} {P R : W → Type 0} where
  pub Moves-store :
      (env : Env) (e : E) (f : ℕ → W → W)
      → ((t : ℕ) (w : W) → P w → R (f t w))
      → Moves P R (store env e f)
  unfolding ◌>>=◌
  Moves-store env e f h = record {
    at = λ s p. elim (Bool-cases (env.fault s.tick)) [
      | inl k ↦ rw k (inl p)
      | inr k ↦ rw k (h (env.clock s.tick) s.world p)
    ];
  }
