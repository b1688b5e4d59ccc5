-- ===== src/Paging/Client.antt =====
-- A client that reads a whole list: one call for each page, with the cursor of the page before.
use smusic.Prelude.{length, ◌<◌}
use smusic.Paging.Sorted.{IsKeyed, length-sort}
use smusic.Paging.{sort}
use smusic.Paging.Follow.{collect-sort}
use smusic.Prelude.{some-inj, ◌++◌, Bool-cases, refl, arith}
use smusic.Prelude.{
  ℕ, zero, suc, String, ◌≡◌, Option, none, some, List, str_eq, if◌then◌else◌, Option-cases, inl,
  inr,
}
use smusic.Effect.{Act, ok, pure, ◌>>=◌}
use smusic.Paging.{Order, Codec, Page, page_after, start_of}
use smusic.Paging.Follow.{append_rest, collect, go_on}

module _ {W E A : Type 0} where
  -- The rest is read if there is a next cursor.
  abbrev pub onward : (String → Act W E (Option (List A))) → Page A → Act W E (Option (List A))
  onward read page =
      if str_eq page.next_cursor ""
      then pure (some page.items)
      else (read page.next_cursor >>= λ rest. pure (append_rest page.items rest))

  abbrev pub follow : ℕ → (String → Act W E (Page A)) → String → Act W E (Option (List A))
  follow zero m cursor = pure none
  follow (suc fuel) m cursor = m cursor >>= onward (follow fuel m)

append_rest-eq :
    {A : Type 0} (items : List A) (o : Option (List A)) {all : List A}
    → append_rest items o ≡ some all
    → (rest : List A) × (o ≡ some rest) × (items ++ rest ≡ all)
append_rest-eq items none h = cc
append_rest-eq items (some rest) h = (rest, refl, some-inj h)

-- The calls answer with the pages of the rows.
module _ {W E K A : Type 0} (order : Order K) (codec : Codec K) (key : A → K) where
  abbrev pub Answers : (String → Act W E (Page A)) → ℕ → List A → W → Type 0
  Answers m limit rows w =
      (cursor : String) (k : Option K) (n : ℕ)
      → start_of order codec key cursor ≡ some k
      → m cursor (record { tick = n; world = w })
        ≡ ok (page_after order codec key k limit rows) (record { tick = suc n; world = w })

  onward-go_on :
      (read : String → Act W E (Option (List A))) (o : Option (List A)) (page : Page A) (w : W)
      (n : ℕ) (all : List A)
      → ((rest : List A)
          → o ≡ some rest
          → (t : ℕ) × (read page.next_cursor (record { tick = n; world = w })
              ≡ ok (some rest) (record { tick = t; world = w })))
      → go_on order codec key page o ≡ some all
      → (t : ℕ) × (onward read page (record { tick = n; world = w })
          ≡ ok (some all) (record { tick = t; world = w }))
  unfolding ◌>>=◌
  onward-go_on read o page w n all ih h = elim (Bool-cases (str_eq page.next_cursor "")) [
    | inl last ↦ (n, ground (arith, h, last))
    | inr more ↦
        let (rest, e, whole) = append_rest-eq page.items o {all = all} (ground (arith, h, more)) in
        let (t, read_rest) = ih rest e in (t, rw (more, read_rest, whole) refl)
  ]

  -- Then the client reads what `collect` collects.
  pub follow-collect :
      (m : String → Act W E (Page A)) (limit : ℕ) (rows : List A) (w : W)
      → Answers m limit rows w
      → (fuel n : ℕ) (cursor : String) (all : List A)
      → collect order codec key fuel rows limit cursor ≡ some all
      → (t : ℕ) × (follow fuel m cursor (record { tick = n; world = w })
          ≡ ok (some all) (record { tick = t; world = w }))
  unfolding ◌>>=◌
  follow-collect m limit rows w answers zero n cursor all h = cc
  follow-collect m limit rows w answers (suc fuel) n cursor all h =
      elim (Option-cases (start_of order codec key cursor)) [
        | inl e ↦ absurd (ground (arith, h, e))
        | inr (k, e) ↦
            let page = page_after order codec key k limit rows in
            let rest = collect order codec key fuel rows limit page.next_cursor in
            rw (answers cursor k n e) (
              onward-go_on (follow fuel m) rest page w (suc n) all
                (λ all' e'.
                  follow-collect m limit rows w answers fuel (suc n) page.next_cursor all' e')
                (ground (arith, h, e)))
      ]

  -- A client with more fuel than there are rows reads all of them, sorted.
  pub follow-sort :
      (m : String → Act W E (Page A)) (limit : ℕ) (rows : List A) (w : W)
      → Answers m limit rows w
      → IsKeyed order codec key rows
      → 0 < limit
      → (fuel n : ℕ) → length rows < fuel
      → (t : ℕ) × (follow fuel m "" (record { tick = n; world = w })
          ≡ ok (some (sort order codec key rows)) (record { tick = t; world = w }))
  follow-sort m limit rows w answers keyed h fuel n enough =
      follow-collect m limit rows w answers fuel n "" (sort order codec key rows) (
        collect-sort order codec key fuel limit rows keyed h
          (omega (arith, enough, length-sort order codec key rows)))
