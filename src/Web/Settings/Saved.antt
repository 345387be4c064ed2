-- ===== src/Web/Settings/Saved.antt =====
-- What `orgs.update` makes of what the page of settings sends.
use mikrotikbandwidthmonitor.Web.Text.{filled_text}
use mikrotikbandwidthmonitor.Web.Settings.{
  SaveOrg, permitted, settings_event, handle_save_org, press_save, SettingsPage, shown_org_name,
  save_request, org_input,
}
use mikrotikbandwidthmonitor.Prelude.Bytes.{Text}
use mikrotikbandwidthmonitor.Prelude.{
  List, Bool, true, false, not, none, some_inj, sym, ap, subst, ◌∙◌, ==_iff, ◌==◌, if◌then◌else◌,
  Option-cases, ok, ℕ, inr, ◌∷◌, [], ◌≡◌, refl, inl, some,
}
use mikrotikbandwidthmonitor.Api.Devices.{filled}
use mikrotikbandwidthmonitor.Api.Devices.Tenancy.{member}
use mikrotikbandwidthmonitor.Api.Tenancy.{first-select}
use mikrotikbandwidthmonitor.Api.Database.{Engine, first}
use mikrotikbandwidthmonitor.Api.Schema.{Uuid, Organization, OrgStore}
use mikrotikbandwidthmonitor.Api.Context.{SessionUser}
use mikrotikbandwidthmonitor.Api.Orgs.{UpdateOrgInput, unless_empty, updated_org, update_org}

-- What the organization becomes.
abbrev pub saved_org : (now : ℕ) → SettingsPage → Organization → Organization
saved_org now page o = record o { name = shown_org_name (some o.name) page; updated_at = now }

named : (s name : Text) → unless_empty (filled (some s)) name ≡ (if filled_text s then s else name)
named [] name = refl
named (c ∷ s) name = refl

updated_org-save :
    (now : ℕ) (page : SettingsPage) (o : Organization)
    → updated_org now (org_input (save_request page)) o ≡ saved_org now page o
unfolding shown_org_name
updated_org-save now page o =
    ap (λ (s : Text). record o { name = s; updated_at = now }) (named page.org_name o.name)

-- The input of the last call of `updateOrg`
abbrev pub last_input : List SaveOrg → UpdateOrgInput
last_input [] = record { name = none; settings = none }
last_input (r ∷ rs) = org_input r

permitted-some :
    (b : Bool) (page : SettingsPage) {page' : SettingsPage}
    → permitted b page ≡ some page'
    → (b ≡ true) × (page ≡ page')
permitted-some true page e = (refl, some_inj e)
permitted-some false page e = cc

module _ (engine : Engine) (user : SessionUser) (org : Uuid) (store : OrgStore engine) where
  abbrev pair : Organization → OrgStore engine → Organization × OrgStore engine
  pair o s = (o, s)

  update_org-request :
      (now : ℕ) (page : SettingsPage) {answer : Organization} {store' : OrgStore engine}
      → update_org engine now (member user org) store (org_input (save_request page))
        ≡ ok (answer, store')
      → (old : Organization) × engine.Has store.organizations old
        × (old.id ≡ org)
        × (answer ≡ saved_org now page old)
        × engine.Has store'.organizations answer
  unfolding update_org
  update_org-request now page {answer} {store'} e =
      let input = org_input (save_request page) in
      elim (Option-cases
        (engine.update (λ o. o.id == org) (updated_org now input) store.organizations)) [
          | inl refused ↦ cc (rw (refused, update_org) at e)
          | inr (rows, written) ↦
              let e1 = rw (written, update_org) at e in
              elim (Option-cases (first (engine.select (λ o. o.id == org) rows))) [
                | inl missing ↦ cc (rw missing at e1)
                | inr (found, there) ↦
                    let e2 = rw there at e1 in
                    let same : pair found (record store { organizations = rows })
                        ≡ pair answer store' =
                      cc in
                    let (kept, hit) = first-select engine (λ o. o.id == org) rows there in
                    subst
                      (λ (a : Organization × OrgStore engine).
                        (old : Organization) × engine.Has store.organizations old
                        × (old.id ≡ org)
                        × (a.0 ≡ saved_org now page old)
                        × engine.Has a.1.organizations a.0)
                      same
                      (elim (engine.from_update (λ o. o.id == org) (updated_org now input)
                        store.organizations written kept) [
                          | inl (before, missed) ↦ cc
                          | inr (old, before, ours, changed) ↦ (
                            old,
                            before,
                            (==_iff old.id org).0 ours,
                            changed ∙ updated_org-save now page old,
                            kept,
                          )
                        ])
              ]
        ]

  -- Where the page of a member had loaded the name that the database has, pressing save on it
  -- sends a request which, if the API carries it out, gives the member's organization the name
  -- that the form showed; apart from the time of the change nothing else of it is changed, and it
  -- stands in the table as it is answered.
  pub update_org-save :
      (is_email : Text → Bool) (now : ℕ) (page : SettingsPage) (loaded : Text)
      {page' : SettingsPage} {answer : Organization} {store' : OrgStore engine}
      → ((o : Organization) → engine.Has store.organizations o → o.id ≡ org → o.name ≡ loaded)
      → settings_event is_email page press_save ≡ some page'
      → update_org engine now (member user org) store (last_input page'.saves) ≡ ok (answer, store')
      → (old : Organization) × engine.Has store.organizations old
        × (old.id ≡ org)
        × (answer ≡ record old { name = shown_org_name (some loaded) page; updated_at = now })
        × engine.Has store'.organizations answer
  unfolding settings_event handle_save_org
  update_org-save is_email now page loaded {page'} {answer} {store'} fresh pressed e =
      let (offered, same) =
        permitted-some (not page.saving_org.is_pending) (handle_save_org page) pressed in
      let sent =
        subst
          (λ (p : SettingsPage).
            update_org engine now (member user org) store (last_input p.saves)
            ≡ ok (answer, store'))
          (sym same) e in
      let (old, there, ours, becomes, kept) = update_org-request now page sent in
      (
        old,
        there,
        ours,
        becomes
            ∙ ap
                (λ (n : Text). record old { name = shown_org_name (some n) page; updated_at = now })
                (fresh old there ours),
        kept,
      )
