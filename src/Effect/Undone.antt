-- ===== src/Effect/Undone.antt =====
-- Actions that leave the world as it was when they fail.
use smusic.Prelude.{inr, ◌⊎◌, inl, ◌≡◌, refl, ◌∙◌, subst, arith}
use smusic.Effect.{Outcome, Act, State, ok, err, pure, raise, catch, rescue, resume, ◌>>=◌}
use smusic.Effect.Keeps.{Keeps, Any, Post}

pub record Undone {W E A : Type 0} (m : Act W E A) : Type 0 where
  pub at : (s t : State W) (e : E) → m s ≡ err e t → s.world ≡ t.world

-- It only reads.
abbrev pub Reads : {W E A : Type 0} → Act W E A → Type 0
Reads {W = W} m = (w : W) → Keeps (λ v. w ≡ v) Any m

module _ {W E A B : Type 0} where
  resume-eq-err :
      (o : Outcome W E A) (f : A → Act W E B) {t : State W} {e : E}
      → resume o f ≡ err e t
      → (o ≡ err e t) ⊎ ((a : A) × (u : State W) × (o ≡ ok a u) × (f a u ≡ err e t))
  resume-eq-err (ok a s) f h = inr (a, s, refl, h)
  resume-eq-err (err e s) f h = inl (ground (arith, h))

  pub Undone-bind :
      (m : Act W E A) (f : A → Act W E B) → Reads m → ((a : A) → Undone (f a)) → Undone (m >>= f)
  unfolding ◌>>=◌
  Undone-bind m f r k = record {
    at = λ s t e h. elim (resume-eq-err (m s) f h) [
      | inl early ↦ subst (Post (λ v. s.world ≡ v) Any) early ((r s.world).at s refl)
      | inr (a, u, first, later) ↦
          (subst (Post (λ v. s.world ≡ v) Any) first ((r s.world).at s refl)).0
          ∙ (k a).at u t e later
    ];
  }

  pub Undone-last : (m : Act W E A) (b : B) → Undone m → Undone (m >>= λ _. pure b)
  unfolding ◌>>=◌
  Undone-last m b r = record {
    at = λ s t e h. elim (resume-eq-err (m s) (λ _. pure b) h) [
      | inl early ↦ r.at s t e early
      | inr (a, u, first, later) ↦ absurd (ground (arith, later))
    ];
  }

module _ {W E A : Type 0} where
  pub Undone-catch : (m : Act W E A) (f : E → E) → Undone m → Undone (catch m (λ e. raise (f e)))
  unfolding ◌>>=◌
  Undone-catch m f r = record {
    at = λ s t e h. let (e', early) = was (m s) t e h in r.at s t e' early;
  }
    where
      was :
          (o : Outcome W E A) (t : State W) (e : E)
          → rescue o (λ x. raise (f x)) ≡ err e t
          → (x : E) × (o ≡ err x t)
      was (ok a u) t e h = cc
      was (err x u) t e h = (x, ground (arith, h))

  pub Undone-Reads : (m : Act W E A) → Reads m → Undone m
  Undone-Reads m r = record {
    at = λ s t e h. subst (Post (λ v. s.world ≡ v) Any) h ((r s.world).at s refl);
  }
