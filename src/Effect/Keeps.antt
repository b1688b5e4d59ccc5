-- ===== src/Effect/Keeps.antt =====
-- Invariants of actions, with what is known of the value that an action returns.
use smusic.Prelude.{arith, ℕ, ◌≡◌, refl, Bool, true, false, Option, none, some, if◌then◌else◌}
use smusic.Effect.{
  Env, Outcome, Act, State, ok, err, pure, raise, or_raise, catch, rescue, resume, ◌>>=◌, guard,
  now, new_id, fetch, store, best_effort, world_of,
}

-- `P` holds of the world that the outcome leaves, and `Q` of the value, if there is one.
abbrev pub Post : {W E A : Type 0} → (W → Type 0) → (A → Type 0) → Outcome W E A → Type 0
Post P Q (ok a s) = P s.world × Q a
Post P Q (err e s) = P s.world

pub record Keeps {W E A : Type 0} (P : W → Type 0) (Q : A → Type 0) (m : Act W E A) : Type 0 where
  pub at : (s : State W) → P s.world → Post P Q (m s)

abbrev pub Any : {A : Type 0} → A → Type 0
Any _ = Unit

pub Post-world :
    {W E A : Type 0} (P : W → Type 0) (Q : A → Type 0) (o : Outcome W E A)
    → Post P Q o
    → P (world_of o)
Post-world P Q (ok a s) h = h.0
Post-world P Q (err e s) h = h

module _ {W E A : Type 0} {P : W → Type 0} {Q : A → Type 0} where
  pub Keeps-pure : (a : A) → Q a → Keeps {E = E} P Q (pure a)
  unfolding ◌>>=◌
  Keeps-pure a q = record { at = λ s h. (h, q) }

  pub Keeps-raise : (e : E) → Keeps P Q (raise e)
  unfolding ◌>>=◌
  Keeps-raise e = record { at = λ s h. h }

  pub Keeps-or_raise :
      (e : E) (o : Option A) → ((a : A) → o ≡ some a → Q a) → Keeps P Q (or_raise e o)
  unfolding ◌>>=◌
  Keeps-or_raise e none q = record { at = λ s h. h }
  Keeps-or_raise e (some a) q = record { at = λ s h. (h, q a refl) }

  pub Keeps-if :
      (b : Bool) (m n : Act W E A)
      → (b ≡ true → Keeps P Q m)
      → (b ≡ false → Keeps P Q n)
      → Keeps P Q (if b then m else n)
  Keeps-if true m n km kn = km refl
  Keeps-if false m n km kn = kn refl

  rescue-Post :
      (o : Outcome W E A) (f : E → Act W E A)
      → Post P Q o
      → ((e : E) → Keeps P Q (f e))
      → Post P Q (rescue o f)
  rescue-Post (ok a s) f h k = h
  rescue-Post (err e s) f h k = (k e).at s h

  pub Keeps-catch :
      (m : Act W E A) (f : E → Act W E A)
      → Keeps P Q m
      → ((e : E) → Keeps P Q (f e))
      → Keeps P Q (catch m f)
  unfolding ◌>>=◌
  Keeps-catch m f km kf = record { at = λ s h. rescue-Post (m s) f (km.at s h) kf }

module _ {W E A B : Type 0} {P : W → Type 0} {Q : A → Type 0} {R : B → Type 0} where
  resume-Post :
      (o : Outcome W E A) (f : A → Act W E B)
      → Post P Q o
      → ((a : A) → Q a → Keeps P R (f a))
      → Post P R (resume o f)
  resume-Post (ok a s) f h k = (k a h.1).at s h.0
  resume-Post (err e s) f h k = h

  pub Keeps-bind :
      (m : Act W E A) (f : A → Act W E B)
      → Keeps P Q m
      → ((a : A) → Q a → Keeps P R (f a))
      → Keeps P R (m >>= f)
  unfolding ◌>>=◌
  Keeps-bind m f km kf = record { at = λ s h. resume-Post (m s) f (km.at s h) kf }

-- The same where nothing is said of the values.
module _ {W E A : Type 0} {P : W → Type 0} where
  pub Keeps-done : (a : A) → Keeps {E = E} P Any (pure a)
  Keeps-done a = Keeps-pure a tt

  pub Keeps-both :
      (b : Bool) (m n : Act W E A)
      → Keeps P Any m
      → Keeps P Any n
      → Keeps P Any (if b then m else n)
  Keeps-both b m n km kn = Keeps-if b m n (λ _. km) (λ _. kn)

module _ {W E A B : Type 0} {P : W → Type 0} where
  pub Keeps-then :
      (m : Act W E A) (f : A → Act W E B)
      → Keeps P Any m
      → ((a : A) → Keeps P Any (f a))
      → Keeps P Any (m >>= f)
  Keeps-then m f km kf = Keeps-bind m f km (λ a _. kf a)

module _ {W E : Type 0} {P : W → Type 0} where
  pub Keeps-guard : (b : Bool) (e : E) → Keeps P Any (guard {W = W} b e)
  unfolding ◌>>=◌
  Keeps-guard true e = record { at = λ s h. (h, tt) }
  Keeps-guard false e = record { at = λ s h. h }

  pub Keeps-best_effort : (m : Act W E Unit) → Keeps P Any m → Keeps P Any (best_effort m)
  unfolding ◌>>=◌
  Keeps-best_effort m k = record { at = λ s h. (Post-world P Any (m s) (k.at s h), tt) }

module _ {W E : Type 0} {P : W → Type 0} (env : Env) where
  pub Keeps-now : Keeps {E = E} P Any (now env)
  unfolding ◌>>=◌
  Keeps-now = record { at = λ s h. (h, tt) }

  pub Keeps-new_id : Keeps {E = E} P Any (new_id env)
  unfolding ◌>>=◌
  Keeps-new_id = record { at = λ s h. (h, tt) }

  -- A read tells what `P` says of the answer.
  pub Keeps-fetch :
      {A : Type 0} {Q : A → Type 0} (e : E) (f : ℕ → W → A)
      → ((t : ℕ) (w : W) → P w → Q (f t w))
      → Keeps P Q (fetch env e f)
  unfolding ◌>>=◌
  Keeps-fetch e f q = record { at = λ s h. ground (arith, q (env.clock s.tick) s.world h) }

  pub Keeps-store :
      (e : E) (f : ℕ → W → W) → ((t : ℕ) (w : W) → P w → P (f t w)) → Keeps P Any (store env e f)
  unfolding ◌>>=◌
  Keeps-store e f q = record { at = λ s h. ground (arith, q (env.clock s.tick) s.world h) }

module _ {W E A : Type 0} {P : W → Type 0} {Q : A → Type 0} where
  -- What a test has found out is known behind it.
  pub Keeps-guarded :
      (b : Bool) (e : E) (f : Unit → Act W E A)
      → (b ≡ true → Keeps P Q (f tt))
      → Keeps P Q (guard b e >>= f)
  unfolding ◌>>=◌
  Keeps-guarded true e f k = record { at = (k refl).at }
  Keeps-guarded false e f k = record { at = λ s h. h }

Post-forget :
    {W E A : Type 0} (P : W → Type 0) (Q : A → Type 0) (o : Outcome W E A)
    → Post P Q o
    → Post P Any o
Post-forget P Q (ok a s) h = (h.0, tt)
Post-forget P Q (err e s) h = h

pub Keeps-forget :
    {W E A : Type 0} {P : W → Type 0} {Q : A → Type 0} (m : Act W E A) → Keeps P Q m → Keeps P Any m
Keeps-forget {P = P} {Q = Q} m k = record { at = λ s h. Post-forget P Q (m s) (k.at s h) }

-- Reads of which nothing is said.
module _ {W E A : Type 0} {P : W → Type 0} where
  pub Keeps-read : (env : Env) (e : E) (f : ℕ → W → A) → Keeps P Any (fetch env e f)
  Keeps-read env e f = Keeps-fetch env e f (λ t w h. tt)

  pub Keeps-found : (e : E) (o : Option A) → Keeps {W = W} P Any (or_raise e o)
  Keeps-found e o = Keeps-or_raise e o (λ a h. tt)

pub ruleset keeps_rules = (
  Keeps-pure, Keeps-raise, Keeps-if, Keeps-catch, Keeps-bind, Keeps-guard, Keeps-best_effort,
  Keeps-now, Keeps-new_id,
)

pub ruleset frame_rules = (
  Keeps-done, Keeps-raise, Keeps-both, Keeps-catch, Keeps-then, Keeps-guard, Keeps-best_effort,
  Keeps-now, Keeps-new_id,
)
