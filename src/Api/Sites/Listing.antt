-- ===== src/Api/Sites/Listing.antt =====
-- What apps/api/src/trpc/routers/sites.ts lists after a site was created.
use mikrotikbandwidthmonitor.Snmp.Session.{refused}
use mikrotikbandwidthmonitor.Prelude.{
  ◌==◌, ==_iff, length, All, ok, List, true, ◌≡◌, ◌≤◌, ℕ, Member, Bool-cases, Option-cases,
  All-widen, refl, inr, inl, subst, arith, some,
}
use mikrotikbandwidthmonitor.Api.Devices.Tenancy.{member}
use mikrotikbandwidthmonitor.Api.Database.{Engine}
use mikrotikbandwidthmonitor.Api.Tenancy.{KeepsOthers, insert-KeepsOthers}
use mikrotikbandwidthmonitor.Api.Sites.{SiteInput, list_sites, create_site, is_name, new_site}
use mikrotikbandwidthmonitor.Api.Schema.{Uuid, Site}
use mikrotikbandwidthmonitor.Api.Context.{SessionUser}

abbrev pub site_org : Site → Uuid
site_org s = s.org_id

module _ (engine : Engine) (user other : SessionUser) (org : Uuid) (sites : engine.Table Site) where
  own_sites :
      (t : engine.Table Site) → All (λ s. s.org_id ≡ org) (engine.select (λ s. s.org_id == org) t)
  own_sites t =
      All-widen (λ s. engine.Has t s × ((s.org_id == org) ≡ true)) (λ s. s.org_id ≡ org)
        (λ s h. (==_iff s.org_id org).0 h.1) (engine.select (λ s. s.org_id == org) t)
        (engine.selected (λ s. s.org_id == org) t)

  -- What a list says of a site that was created from an input.
  abbrev pub IsListed : SiteInput → engine.Table Site → Site → Type 0
  IsListed input t s =
      (1 ≤ length s.name)
      × (length s.name ≤ 255)
      × (s.name ≡ input.name)
      × KeepsOthers engine site_org org sites t
      × ((l : List Site) × (list_sites engine (member other org) t ≡ ok l)
          × Member l s
          × All (λ x. x.org_id ≡ org) l)

  listed :
      (id : Uuid) (now : ℕ) (input : SiteInput) (t : engine.Table Site)
      → is_name input.name ≡ true
      → engine.insert (new_site id now org input) sites ≡ some t
      → IsListed input t (new_site id now org input)
  unfolding list_sites
  listed id now input t good inserted = (
    ground arith,
    ground arith,
    refl,
    insert-KeepsOthers engine site_org org sites _ refl inserted,
    (
      engine.order_text (λ x. x.name) (engine.select (λ x. x.org_id == org) t),
      refl,
      engine.listed_text (λ x. x.name) (engine.select (λ x. x.org_id == org) t) _
          (engine.complete (λ x. x.org_id == org) t _
            (engine.inserted (new_site id now org input) sites inserted) ((==_iff org org).1 refl)),
      engine.ordered_text (λ x. x.name) (λ y. y.org_id ≡ org) _ (own_sites t),
    ),
  )

  -- A site that a member created has the name that was given, of 1 to 255 characters; every member of
  -- the organization finds it in the list, which holds sites of the organization only; and the sites
  -- of other organizations are as they were.
  pub create_site-list_sites :
      (id : Uuid) (now : ℕ) (input : SiteInput) {s : Site} {sites' : engine.Table Site}
      → create_site engine id now (member user org) sites input ≡ ok (s, sites')
      → IsListed input sites' s
  unfolding create_site
  create_site-list_sites id now input {s} {sites'} e = elim (Bool-cases (is_name input.name)) [
    | inr bad ↦ cc (rw (bad, create_site) at e)
    | inl good ↦ elim (Option-cases (engine.insert (new_site id now org input) sites)) [
      | inl refused ↦ cc (rw (refused, create_site) at rw (good, create_site) at e)
      | inr (t, inserted) ↦
          let e' = rw (inserted, create_site) at rw (good, create_site) at e in
          let same : new_site id now org input ≡ s = cc e' in
          let to : t ≡ sites' = cc e' in
          subst (λ u. IsListed input u s) to
            (subst (IsListed input t) same (listed id now input t good inserted))
    ]
  ]
