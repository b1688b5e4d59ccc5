-- ===== src/Presence/RateLimit/Windows.antt =====
-- How often backend/internal/platform/cache/ratelimiter.go says yes within one window.
use smusic.Prelude.{
  ◌≤◌, ap, true, ◌+◌, ◌-◌, min, ℕ, zero, suc, ◌<◌, String, ◌≡◌, Bool, false, Option, none, some,
  List, [], ◌∷◌, arith, leb, eq_refl,
}
use smusic.Effect.{Env, State, Outcome, ok, err, ◌>>=◌, state_of}
use smusic.Presence.Domain.{Error}
use smusic.Presence.World.{World}
use smusic.Presence.RateLimit.{allow, hit, arm, incr, current}

-- The answers of `n` calls in a row with one key, and the state after them; `none` where a call
-- failed.
abbrev answer : Outcome World Error Bool → Option Bool
answer (ok b s) = some b
answer (err e s) = none

pub grants : List (Option Bool) → ℕ
grants [] = 0
grants (some true ∷ bs) = suc (grants bs)
grants (some false ∷ bs) = grants bs
grants (none ∷ bs) = grants bs

module _ (env : Env) (key : String) (limit window : ℕ) where
  pub calls : ℕ → State World → List (Option Bool)
  calls zero s = []
  calls (suc n) s =
      answer (allow env key limit window s) ∷ calls n (state_of (allow env key limit window s))

  -- A key counted `n` times within a window that ends at `e`.
  abbrev IsOpen : ℕ → ℕ → State World → Type 0
  IsOpen n e s = s.world.counters key ≡ record { count = n; expires = some e }

  allow-IsOpen :
      (n e : ℕ) (s : State World)
      → IsOpen (suc n) e s
      → env.fault s.tick ≡ false
      → env.clock s.tick < e
      → (allow env key limit window s
          ≡ ok (leb (suc (suc n)) limit) (state_of (allow env key limit window s)))
        × IsOpen (suc (suc n)) e (state_of (allow env key limit window s))
  unfolding allow hit arm incr current ◌>>=◌
  allow-IsOpen n e s h up early = ground (arith, eq_refl key)

  allow-IsOpen_fresh :
      (s : State World)
      → current (env.clock s.tick) (s.world.counters key) ≡ 0
      → env.fault s.tick ≡ false
      → env.fault (suc s.tick) ≡ false
      → (allow env key limit window s ≡ ok (leb 1 limit) (state_of (allow env key limit window s)))
        × IsOpen 1 (env.clock (suc s.tick) + window) (state_of (allow env key limit window s))
  unfolding allow hit arm incr ◌>>=◌
  allow-IsOpen_fresh s h up up' = ground (arith, eq_refl key)

  grants-calls_open :
      (n m e : ℕ) (s : State World)
      → IsOpen (suc m) e s
      → ((k : ℕ) → env.fault k ≡ false)
      → ((k : ℕ) → env.clock k < e)
      → grants (calls n s) ≡ min n (limit - suc m)
  unfolding calls grants
  grants-calls_open zero m e s h up early = omega arith
  grants-calls_open (suc n) m e s h up early =
      let step = allow-IsOpen m e s h (up s.tick) (early s.tick) in
      let rest =
        grants-calls_open n (suc m) e (state_of (allow env key limit window s)) step.1 up early in
      ground (arith, ap answer step.0, rest)

  -- With no failing call and the clock inside the window, of any number of calls from a fresh key on
  -- exactly the first `limit` are allowed.
  pub grants-calls :
      (n : ℕ) (s : State World)
      → current (env.clock s.tick) (s.world.counters key) ≡ 0
      → ((k : ℕ) → env.fault k ≡ false)
      → ((k : ℕ) → env.clock k < env.clock (suc s.tick) + window)
      → grants (calls n s) ≡ min n limit
  unfolding calls grants
  grants-calls zero s fresh up early = omega arith
  grants-calls (suc n) s fresh up early =
      let step = allow-IsOpen_fresh s fresh (up s.tick) (up (suc s.tick)) in
      let rest =
        grants-calls_open n 0 _ (state_of (allow env key limit window s)) step.1 up early in
      ground (arith, ap answer step.0, rest)

  -- A key that was counted and has no expiry.
  abbrev IsUnarmed : ℕ → State World → Type 0
  IsUnarmed n s = s.world.counters key ≡ record { count = suc n; expires = none }

  allow-IsUnarmed :
      (n : ℕ) (s : State World)
      → IsUnarmed n s
      → env.fault s.tick ≡ false
      → (allow env key limit window s
          ≡ ok (leb (suc (suc n)) limit) (state_of (allow env key limit window s)))
        × IsUnarmed (suc n) (state_of (allow env key limit window s))
        × ((state_of (allow env key limit window s)).tick ≡ suc s.tick)
  unfolding allow hit arm incr current ◌>>=◌
  allow-IsUnarmed n s h up = ground (arith, eq_refl key)

  allow-IsUnarmed_fresh :
      (s : State World)
      → current (env.clock s.tick) (s.world.counters key) ≡ 0
      → env.fault s.tick ≡ false
      → env.fault (suc s.tick) ≡ true
      → IsUnarmed 0 (state_of (allow env key limit window s))
        × ((state_of (allow env key limit window s)).tick ≡ suc (suc s.tick))
  unfolding allow hit arm incr ◌>>=◌
  allow-IsUnarmed_fresh s h up down = ground (arith, eq_refl key)

  grants-calls_unarmed :
      (n m : ℕ) (s : State World)
      → IsUnarmed m s
      → ((k : ℕ) → s.tick ≤ k → env.fault k ≡ false)
      → grants (calls n s) ≡ min n (limit - suc m)
  unfolding calls grants
  grants-calls_unarmed zero m s h up = omega arith
  grants-calls_unarmed (suc n) m s h up =
      let step = allow-IsUnarmed m s h (up s.tick (omega arith)) in
      let rest =
        grants-calls_unarmed n (suc m) (state_of (allow env key limit window s)) step.1
          (λ k le. up k (omega (arith, step.2))) in
      ground (arith, ap answer step.0, rest)

  -- If the call that opens a window fails at arming the expiry, the window never ends: with no further
  -- failure, and whatever the clock says, of any number of later calls only the first `limit` - 1 are
  -- allowed.
  pub grants-calls_forever :
      (n : ℕ) (s : State World)
      → current (env.clock s.tick) (s.world.counters key) ≡ 0
      → env.fault s.tick ≡ false
      → env.fault (suc s.tick) ≡ true
      → ((k : ℕ) → suc (suc s.tick) ≤ k → env.fault k ≡ false)
      → grants (calls n (state_of (allow env key limit window s))) ≡ min n (limit - 1)
  grants-calls_forever n s fresh up down later =
      let opened = allow-IsUnarmed_fresh s fresh up down in
      grants-calls_unarmed n 0 (state_of (allow env key limit window s)) opened.0
        (λ k le. later k (omega (arith, opened.1)))
