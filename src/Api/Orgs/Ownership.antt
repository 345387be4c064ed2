-- ===== src/Api/Orgs/Ownership.antt =====
-- What apps/api/src/trpc/routers/orgs.ts promises about the owner of an organization.
use mikrotikbandwidthmonitor.Prelude.{
  ◌≡◌, refl, sym, ap, ◌∙◌, true, none, some, ok, inl, inr, Option-cases, subst, some_inj,
}
use mikrotikbandwidthmonitor.Prelude.Bytes.{Text, text_eq}
use mikrotikbandwidthmonitor.Api.Database.{Engine, first}
use mikrotikbandwidthmonitor.Api.Schema.{Uuid, OrgMembership, OrgStore, OrgRole, User}
use mikrotikbandwidthmonitor.Api.Context.{SessionUser}
use mikrotikbandwidthmonitor.Api.Devices.Tenancy.{member}
use mikrotikbandwidthmonitor.Api.Orgs.{
  invited, role_of, upsert_membership, MemberRole, membership_of, invite_member,
}

module _ (engine : Engine) (user : SessionUser) (store : OrgStore engine) (org : Uuid) where
  upsert_membership_there :
      (id now invitee by : Uuid) (role : OrgRole) (m x : OrgMembership) {store' : OrgStore engine}
      → first (engine.select (membership_of org invitee) store.org_memberships) ≡ some m
      → upsert_membership engine id now org invitee by role store ≡ some store'
      → engine.Has store'.org_memberships x
      → membership_of org invitee x ≡ true
      → (x.role ≡ role) × (x.accepted_at ≡ none)
  unfolding upsert_membership
  upsert_membership_there id now invitee by role m x {store'} there e h theirs =
      let e' = rw (there, upsert_membership) at e in
      elim (Option-cases
        (engine.update (membership_of org invitee) (invited by role) store.org_memberships)) [
          | inl refused ↦ cc (rw refused at e')
          | inr (rows, written) ↦
              let same : rows ≡ store'.org_memberships =
                ap (λ (s : OrgStore engine). s.org_memberships) (some_inj (rw written at e')) in
              elim (engine.from_update (membership_of org invitee) (invited by role)
                store.org_memberships written (subst (λ t. engine.Has t x) (sym same) h)) [
                  | inl (before, missed) ↦ cc
                  | inr (old, before, hit, changed) ↦ rw changed (refl, refl)
                ]
        ]

  -- An invitation of somebody who is a member already, the owner included, gives every membership of
  -- theirs in the organization the role of the invitation, and takes their acceptance back.
  pub invite_resets :
      (id now : Uuid) (email : Text) (role : MemberRole) (invitee : User) (m x : OrgMembership)
      {store' : OrgStore engine}
      → first (engine.select (λ u. text_eq u.email email) store.users) ≡ some invitee
      → first (engine.select (membership_of org invitee.id) store.org_memberships) ≡ some m
      → invite_member engine id now (member user org) store email role ≡ ok store'
      → engine.Has store'.org_memberships x
      → membership_of org invitee.id x ≡ true
      → (x.role ≡ role_of role) × (x.accepted_at ≡ none)
  unfolding invite_member
  invite_resets id now email role invitee m x {store'} known there e h theirs =
      elim (Option-cases
        (upsert_membership engine id now org invitee.id user.id (role_of role) store)) [
          | inl refused ↦ cc (rw (known, invite_member) at e)
          | inr (store1, written) ↦
              upsert_membership_there id now invitee.id user.id (role_of role) m x {store' = store'}
                there (written ∙ cc (rw (known, invite_member) at e)) h theirs
        ]
