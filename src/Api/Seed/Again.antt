-- ===== src/Api/Seed/Again.antt =====
-- Running the script of packages/db/src/seed.ts twice.
use mikrotikbandwidthmonitor.RouterOs.Session.Conversation.{done}
use mikrotikbandwidthmonitor.Api.Database.{Engine, first}
use mikrotikbandwidthmonitor.Api.Tenancy.{first-select}
use mikrotikbandwidthmonitor.Api.Seed.{
  SeedStore, insert_new, insert_each, seed, seed_plans, seed_user, seed_org, seed_membership,
}
use mikrotikbandwidthmonitor.Api.Schema.{Uuid, Plan, OrgMembership, Organization, User}
use mikrotikbandwidthmonitor.Prelude.{
  Member, ◌==◌, ==_iff, Option-cases, some_inj, All, refl, ◌≡◌, subst, ◌∷◌, ◌∙◌, List, ℕ, some, [],
  inr, inl, ap,
}

module _ (engine : Engine) {A : Type 0} (id_of : A → Uuid) where
  -- A row of the id stands in the table.
  abbrev Present : Uuid → engine.Table A → Type 0
  Present id t = (x : A) × engine.Has t x × (id_of x ≡ id)

  first_complete : (xs : List A) (x : A) → Member xs x → (y : A) × (first xs ≡ some y)
  unfolding first
  first_complete [] x m = elim m [ ]
  first_complete (y ∷ ys) x m = (y, refl)

  insert_new-Present :
      (row : A) (t : engine.Table A)
      → Present (id_of row) t
      → insert_new engine id_of row t ≡ some t
  unfolding insert_new
  insert_new-Present row t (x, there, same) =
      let hit = (==_iff (id_of x) (id_of row)).1 same in
      let (y, e) = first_complete _ x (engine.complete (λ z. id_of z == id_of row) t x there hit) in
      rw (e, insert_new) refl

  insert_new-kept :
      (row : A) (t : engine.Table A) {t' : engine.Table A}
      → insert_new engine id_of row t ≡ some t'
      → {x : A} → engine.Has t x
      → engine.Has t' x
  unfolding insert_new
  insert_new-kept row t {t'} e {x} there =
      elim (Option-cases (first (engine.select (λ z. id_of z == id_of row) t))) [
        | inl new ↦ engine.kept_by_insert row t (rw (new, insert_new) at e) there
        | inr (old, found) ↦
            subst (λ u. engine.Has u x) (some_inj (rw (found, insert_new) at e)) there
      ]

  insert_new-there :
      (row : A) (t : engine.Table A) {t' : engine.Table A}
      → insert_new engine id_of row t ≡ some t'
      → Present (id_of row) t'
  unfolding insert_new
  insert_new-there row t {t'} e =
      elim (Option-cases (first (engine.select (λ z. id_of z == id_of row) t))) [
        | inl new ↦ (row, engine.inserted row t (rw (new, insert_new) at e), refl)
        | inr (old, found) ↦
            let (there, hit) = first-select engine (λ z. id_of z == id_of row) t found in
            (
              old,
              subst (λ u. engine.Has u old) (some_inj (rw (found, insert_new) at e)) there,
              (==_iff (id_of old) (id_of row)).0 hit,
            )
      ]

  -- The same ids, in the same order.
  abbrev SameIds : List A → List A → Type 0
  SameIds [] [] = Unit
  SameIds (x ∷ xs) (y ∷ ys) = (id_of x ≡ id_of y) × SameIds xs ys
  SameIds _ _ = ⊥

  insert_each-kept :
      (rows : List A) (t : engine.Table A) {t' : engine.Table A}
      → insert_each engine id_of rows t ≡ some t'
      → {x : A} → engine.Has t x
      → engine.Has t' x
  unfolding insert_each
  insert_each-kept [] t e {x} there = subst (λ u. engine.Has u x) (some_inj e) there
  insert_each-kept (row ∷ rows) t e {x} there =
      elim (Option-cases (insert_new engine id_of row t)) [
        | inl refused ↦ cc (rw (refused, insert_each) at e)
        | inr (u, done) ↦
            insert_each-kept rows u (rw (done, insert_each) at e) (insert_new-kept row t done there)
      ]

  -- Rows whose ids stand in the table already change nothing.
  insert_each-Present :
      (rows : List A) (t : engine.Table A)
      → All (λ row. Present (id_of row) t) rows
      → insert_each engine id_of rows t ≡ some t
  unfolding insert_each
  insert_each-Present [] t h = refl
  insert_each-Present (row ∷ rows) t (p, h) =
      rw (insert_new-Present row t p, insert_each) (insert_each-Present rows t h)

  insert_each-there :
      (rows again : List A) (t : engine.Table A) {t' : engine.Table A}
      → SameIds rows again
      → insert_each engine id_of rows t ≡ some t'
      → All (λ row. Present (id_of row) t') again
  unfolding insert_each
  insert_each-there [] [] t same e = tt
  insert_each-there [] (y ∷ ys) t same e = elim same [ ]
  insert_each-there (x ∷ xs) [] t same e = elim same [ ]
  insert_each-there (x ∷ xs) (y ∷ ys) t {t'} (same, later) e =
      elim (Option-cases (insert_new engine id_of x t)) [
        | inl refused ↦ cc (rw (refused, insert_each) at e)
        | inr (u, done) ↦
            let e' = rw (done, insert_each) at e in
            let (z, there, id) = insert_new-there x t done in
            ((z, insert_each-kept xs u e' there, id ∙ same), insert_each-there xs ys u later e')
      ]

module _ (engine : Engine) where
  -- What the four statements make of the tables.
  abbrev Statements : (now : ℕ) → SeedStore engine → SeedStore engine → Type 0
  Statements now s s' =
      (insert_each engine (λ p. p.id) (seed_plans now) s.plans ≡ some s'.plans)
      × (insert_new engine (λ u. u.id) (seed_user now) s.users ≡ some s'.users)
      × (insert_new engine (λ o. o.id) (seed_org now) s.organizations ≡ some s'.organizations)
      × (insert_new engine (λ m. m.id) (seed_membership now) s.org_memberships
          ≡ some s'.org_memberships)

  seeded : (now : ℕ) (s s' : SeedStore engine) → seed engine now s ≡ some s' → Statements now s s'
  unfolding seed
  seeded now s s' e =
      elim (Option-cases (insert_each engine (λ p. p.id) (seed_plans now) s.plans)) [
        | inl bad ↦ cc (rw (bad, seed) at e)
        | inr (ps, a) ↦
            let e1 = rw (a, seed) at e in
            elim (Option-cases (insert_new engine (λ u. u.id) (seed_user now) s.users)) [
              | inl bad ↦ cc (rw bad at e1)
              | inr (us, b) ↦
                  let e2 = rw b at e1 in
                  elim (Option-cases
                    (insert_new engine (λ o. o.id) (seed_org now) s.organizations)) [
                      | inl bad ↦ cc (rw bad at e2)
                      | inr (os, c) ↦
                          let e3 = rw c at e2 in
                          elim (Option-cases (
                            insert_new engine (λ m. m.id) (seed_membership now)
                              s.org_memberships)) [
                                | inl bad ↦ cc (rw bad at e3)
                                | inr (ms, d) ↦
                                    let same = some_inj (rw d at e3) in
                                    (
                                      a ∙ ap (λ (x : SeedStore engine). some x.plans) same,
                                      b ∙ ap (λ (x : SeedStore engine). some x.users) same,
                                      c ∙ ap (λ (x : SeedStore engine). some x.organizations) same,
                                      d
                                          ∙ ap (λ (x : SeedStore engine). some x.org_memberships)
                                              same,
                                    )
                              ]
                    ]
            ]
      ]

  seeds : (now : ℕ) (s s' : SeedStore engine) → Statements now s s' → seed engine now s ≡ some s'
  unfolding seed
  seeds now s s' (a, b, c, d) = rw (a, seed) (rw b (rw c (rw d refl)))

  -- The script can be run again at any time: where it has succeeded, a later run succeeds and changes
  -- none of the tables; and a row that a table had before the first run is still there.
  pub seed-seed :
      (now later : ℕ) (store : SeedStore engine) {store' : SeedStore engine}
      → seed engine now store ≡ some store'
      → (seed engine later store' ≡ some store')
        × ((p : Plan) → engine.Has store.plans p → engine.Has store'.plans p)
        × ((u : User) → engine.Has store.users u → engine.Has store'.users u)
        × ((o : Organization)
            → engine.Has store.organizations o
            → engine.Has store'.organizations o)
        × ((m : OrgMembership)
            → engine.Has store.org_memberships m
            → engine.Has store'.org_memberships m)
  seed-seed now later store {store'} e =
      let (a, b, c, d) = seeded now store store' e in
      (
        seeds later store' store' (
          insert_each-Present engine (λ p. p.id) (seed_plans later) store'.plans
              (insert_each-there engine (λ p. p.id) (seed_plans now) (seed_plans later) store.plans
                (refl, (refl, (refl, tt))) a),
          insert_new-Present engine (λ u. u.id) (seed_user later) store'.users
              (insert_new-there engine (λ u. u.id) (seed_user now) store.users b),
          insert_new-Present engine (λ o. o.id) (seed_org later) store'.organizations
              (insert_new-there engine (λ o. o.id) (seed_org now) store.organizations c),
          insert_new-Present engine (λ m. m.id) (seed_membership later) store'.org_memberships
              (insert_new-there engine (λ m. m.id) (seed_membership now) store.org_memberships d),
        ),
        λ p there. insert_each-kept engine (λ x. x.id) (seed_plans now) store.plans a there,
        λ u there. insert_new-kept engine (λ x. x.id) (seed_user now) store.users b there,
        λ o there. insert_new-kept engine (λ x. x.id) (seed_org now) store.organizations c there,
        λ m there.
            insert_new-kept engine (λ x. x.id) (seed_membership now) store.org_memberships d there,
      )
