-- ===== src/Effect/Leads.antt =====
-- Actions that succeed: where they lead, and what they return.
use smusic.Prelude.{◌≡◌, subst}
use smusic.Effect.{
  Outcome, Act, State, ok, err, pure, raise, catch, rescue, ◌>>=◌, >>=-eq-ok, pure-eq-ok,
}
use smusic.Effect.Keeps.{Keeps, Any, Post}

-- From a world with `P`, success leaves one with `R`.
pub record Leads {W E A : Type 0} (P R : W → Type 0) (m : Act W E A) : Type 0 where
  pub at : (s t : State W) (a : A) → P s.world → m s ≡ ok a t → R t.world

module _ {W E A : Type 0} {P : W → Type 0} where
  pub Leads-Keeps : (m : Act W E A) → Keeps P Any m → Leads P P m
  Leads-Keeps m k = record { at = λ s t a p h. (subst (Post P Any) h (k.at s p)).0 }

module _ {W E A : Type 0} {P Q : W → Type 0} where
  pub Leads-imp :
      {R S : W → Type 0} (m : Act W E A)
      → ((w : W) → P w → R w)
      → ((w : W) → S w → Q w)
      → Leads R S m
      → Leads P Q m
  Leads-imp m f g l = record { at = λ s t a p h. g t.world (l.at s t a (f s.world p) h) }

module _ {W E A B : Type 0} {P Q R : W → Type 0} where
  pub Leads-bind :
      (m : Act W E A) (f : A → Act W E B)
      → Leads P Q m
      → ((a : A) → Leads Q R (f a))
      → Leads P R (m >>= f)
  Leads-bind m f l k = record {
    at = λ s t b p h. let (a, u, e, e') = >>=-eq-ok m f s h in (k a).at u t b (l.at s u a p e) e';
  }

-- From a world with `P`, a success returns a value with `Q`.
pub record Returns {W E A : Type 0} (P : W → Type 0) (Q : A → Type 0) (m : Act W E A) : Type 0 where
  pub at : (s t : State W) (a : A) → P s.world → m s ≡ ok a t → Q a

module _ {W E A B : Type 0} {P : W → Type 0} {Q : B → Type 0} where
  pub Returns-bind :
      {R : A → Type 0} (m : Act W E A) (f : A → Act W E B)
      → Keeps P R m
      → ((a : A) → R a → Returns P Q (f a))
      → Returns P Q (m >>= f)
  Returns-bind {R = R} m f k l = record {
    at = λ s t b p h.
        let (a, u, e, e') = >>=-eq-ok m f s h in
        let (q, r) = subst (Post P R) e (k.at s p) in (l a r).at u t b q e';
  }

  pub Returns-last : (m : Act W E A) (b : B) → Q b → Returns P Q (m >>= λ _. pure b)
  Returns-last m b q = record {
    at = λ s t c p h. let (a, u, e, e') = >>=-eq-ok m _ s h in subst Q (pure-eq-ok b u e').0 q;
  }

-- A success returns a value of which `Q` holds in the world that it leaves.
pub record Gives {W E A : Type 0} (Q : A → W → Type 0) (m : Act W E A) : Type 0 where
  pub at : (s t : State W) (a : A) → m s ≡ ok a t → Q a t.world

module _ {W E A B : Type 0} {Q : B → W → Type 0} where
  -- It is enough that the end of a chain gives it.
  pub Gives-bind :
      (m : Act W E A) (f : A → Act W E B) → ((a : A) → Gives Q (f a)) → Gives Q (m >>= f)
  Gives-bind m f k = record {
    at = λ s t b h. let (a, u, e, e') = >>=-eq-ok m f s h in (k a).at u t b e';
  }

module _ {W E A B : Type 0} {R : W → Type 0} {Q : B → W → Type 0} where
  pub Gives-last :
      (m : Act W E A) (b : B)
      → Leads (λ _. Unit) R m
      → ((w : W) → R w → Q b w)
      → Gives Q (m >>= λ _. pure b)
  Gives-last m b l q = record {
    at = λ s t c h.
        let (a, u, e, e') = >>=-eq-ok m _ s h in
        let (same, there) = pure-eq-ok b u e' in
        subst (λ x. Q x t.world) same
          (subst (λ v. Q b v.world) there (q u.world (l.at s u a tt e)));
  }

module _ {W E A : Type 0} {P R : W → Type 0} where
  pub Leads-catch :
      (m : Act W E A) (f : E → E) → Leads P R m → Leads P R (catch m (λ e. raise (f e)))
  unfolding ◌>>=◌
  Leads-catch m f l = record { at = λ s t a p h. l.at s t a p (undone (m s) t a h) }
    where
      undone :
          (o : Outcome W E A) (t : State W) (a : A)
          → rescue o (λ e. raise (f e)) ≡ ok a t
          → o ≡ ok a t
      undone (ok b u) t a h = h
      undone (err e u) t a h = cc
