-- ===== src/Catalog/Whole/Statements.antt =====
-- What the statements of backend/internal/catalog/postgres/repo.go write, exactly.
use smusic.Prelude.{Bool, String, ◌≡◌, refl, ◌∙◌, sym, subst, ap, List, [], ◌∷◌, ◌++◌, map, arith}
use mathlib.Core.List.{append_assoc, append-nil}
use smusic.Effect.{Env, bump, pure, ◌>>=◌}
use smusic.Effect.Keeps.{Keeps, Any, Keeps-new_id}
use smusic.Effect.Leads.{Leads, Leads-bind, Leads-imp, Leads-Keeps}
use smusic.Catalog.Domain.{TrackArtist, AudioAsset, World, Catalog, Error}
use smusic.Catalog.Validity.Steps.{insert-Leads}
use smusic.Catalog.Repo
use smusic.Catalog.Growth.{settle-eq-ok}
use smusic.Catalog.Whole.{credit_of, asset_of, without_id}

module _ {A : Type 0} {P Q : World → Type 0} where
  Leads-pure : (a : A) → ((w : World) → P w → Q w) → Leads P Q (pure {E = Error} a)
  unfolding ◌>>=◌
  Leads-pure a f = record { at = λ s t b p h. subst Q (ground (arith, h)) (f s.world p) }

module _ {A B : Type 0} {w0 : World} {Q : World → Type 0} where
  -- A statement that only reads, and the rest.
  pub reads :
      {m : Catalog A} {f : A → Catalog B}
      → Keeps (λ w. w0 ≡ w) Any m
      → ((a : A) → Leads (λ w. w0 ≡ w) Q (f a))
      → Leads (λ w. w0 ≡ w) Q (m >>= f)
  reads k l = Leads-bind _ _ (Leads-Keeps _ k) l

  -- The last statement, and the answer.
  pub written :
      {m : Catalog A} (b : B) → Leads (λ w. w0 ≡ w) Q m → Leads (λ w. w0 ≡ w) Q (m >>= λ _. pure b)
  written b l = Leads-bind _ _ l (λ _. Leads-pure b (λ w q. q))

module _ (env : Env) where
  pub insert-Exactly :
      (w0 : World) (accepts : World → Bool) (write : World → World)
      → Leads (λ w. w0 ≡ w) (λ w. w ≡ write w0) (Repo.insert env accepts write)
  insert-Exactly w0 accepts write = insert-Leads env _ _ _ _ (λ w e fine. ap write (sym e))

  pub insert_credits-Exactly :
      (id : String) (tas : List TrackArtist) (w0 : World)
      → Leads
          (λ w. w0 ≡ w)
          (λ w. w ≡ record w0 { credits = w0.credits ++ map (credit_of id) tas })
          (Repo.insert_credits env id tas)
  unfolding Repo.insert_credits Repo.insert_credit
  insert_credits-Exactly id [] w0 =
      Leads-pure _
        (λ w e. sym e ∙ ap (λ cs. record w0 { credits = cs }) (sym (append-nil w0.credits)))
  insert_credits-Exactly id (ta ∷ tas) w0 = Leads-bind _ _ (insert-Exactly w0 _ _) λ _.
      Leads-imp _ (λ w e. sym e)
        (λ w e. e ∙ ap (λ cs. record w0 { credits = cs }) (append_assoc w0.credits _ _))
        (insert_credits-Exactly id tas (record w0 { credits = w0.credits ++ credit_of id ta ∷ [] }))

  -- The assets `rows` were added, which are those of `assets`.
  abbrev HasAssets : String → List AudioAsset → World → World → Type 0
  HasAssets id assets w0 w =
      (rows : List AudioAsset) × (w ≡ record w0 { assets = w0.assets ++ rows })
      × (map without_id rows ≡ map (asset_of id) assets)

  insert_asset-Exactly :
      (id : String) (a : AudioAsset) (w0 : World)
      → Leads
          (λ w. w0 ≡ w)
          (λ w.
            (row : AudioAsset) × (w ≡ record w0 { assets = w0.assets ++ row ∷ [] })
            × (without_id row ≡ asset_of id a))
          (Repo.insert_asset env id a)
  unfolding Repo.insert_asset
  insert_asset-Exactly id a w0 = Leads-bind _ _ (Leads-Keeps _ (Keeps-new_id env)) λ row_id.
      Leads-imp _ (λ w e. e) (λ w e. (record a { id = row_id; track_id = id }, e, refl))
        (insert-Exactly w0 _ _)

  pub insert_assets-Exactly :
      (id : String) (assets : List AudioAsset) (w0 : World)
      → Leads (λ w. w0 ≡ w) (HasAssets id assets w0) (Repo.insert_assets env id assets)
  unfolding Repo.insert_assets
  insert_assets-Exactly id [] w0 =
      Leads-pure _
        λ w e. ([], sym e ∙ ap (λ xs. record w0 { assets = xs }) (sym (append-nil w0.assets)), refl)
  insert_assets-Exactly id (a ∷ rest) w0 = Leads-bind _ _ (insert_asset-Exactly id a w0) λ _.
      record {
        at = λ s t u (row, e, same) h.
            let (rows, e', all) =
              (insert_assets-Exactly id rest (record w0 { assets = w0.assets ++ row ∷ [] })).at s t
                u (sym e) h in
            (
              row ∷ rows,
              e' ∙ ap (λ xs. record w0 { assets = xs }) (append_assoc w0.assets _ _),
              ap (λ x. x ∷ map without_id rows) same ∙ ap (λ xs. asset_of id a ∷ xs) all,
            );
      }

  pub transaction-Leads :
      {P Q : World → Type 0} (m : Catalog Unit) → Leads P Q m → Leads P Q (Repo.transaction env m)
  unfolding Repo.transaction
  transaction-Leads {Q = Q} m l = record {
    at = λ s v a p h.
        let (u, e, same) = settle-eq-ok env s.world (m (bump s)) v (ground (arith, h)) in
        subst Q same (l.at (bump s) u tt p e);
  }
