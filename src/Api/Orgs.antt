-- ===== src/Api/Orgs.antt =====
-- apps/api/src/trpc/routers/orgs.ts: the profile of an organization and its members.
pub mod Ownership
use mikrotikbandwidthmonitor.Api.Alerts.{delete}
use mikrotikbandwidthmonitor.Prelude.{
  Result, ok, err, ◌>>=◌, ◌>>◌, ℕ, Bool, true, false, ◌&&◌, Option, none, some, List, [], ◌∷◌, ◌==◌,
  if◌then◌else◌, ◌++◌,
}
use mikrotikbandwidthmonitor.Prelude.Bytes.{Text, text_eq}
use mikrotikbandwidthmonitor.Api.Database.{Engine, first}
use mikrotikbandwidthmonitor.Api.Schema.{
  Uuid, OrgRole, admin, operator, viewer, OrgMembership, Organization, User, OrgStore,
}
use mikrotikbandwidthmonitor.Api.Context.{
  ApiError, forbidden, not_found, database, Context, protected_procedure,
}

-- `memberRoleEnum`: the roles that a request can name.
pub data MemberRole : Type 0 where
  as_admin as_operator as_viewer : MemberRole

abbrev pub role_of : MemberRole → OrgRole
role_of as_admin = admin
role_of as_operator = operator
role_of as_viewer = viewer

-- `updateOrgSchema`
pub record UpdateOrgInput : Type 0 where
  pub name : Option Text
  pub settings : Option Text

abbrev pub unless_empty : Option Text → Text → Text
unless_empty none d = d
unless_empty (some []) d = d
unless_empty (some (c ∷ s)) d = c ∷ s

abbrev pub unless_missing : Option Text → Text → Text
unless_missing none d = d
unless_missing (some s) d = s

abbrev pub updated_org : ℕ → UpdateOrgInput → Organization → Organization
updated_org now input o = record o {
  name = unless_empty input.name o.name;
  settings = unless_missing input.settings o.settings;
  updated_at = now;
}

-- `and(eq(orgMemberships.orgId, org.id), eq(orgMemberships.userId, userId))`
abbrev pub membership_of : Uuid → Uuid → OrgMembership → Bool
membership_of org user m = m.org_id == org && m.user_id == user

abbrev pub is_owner : Uuid → Option Organization → Bool
is_owner user none = false
is_owner user (some o) = o.owner_user_id == user

abbrev pub invited : Uuid → OrgRole → OrgMembership → OrgMembership
invited by role m = record m { role = role; invited_by = some by; accepted_at = none }

-- A row of `listMembers`.
pub record Member : Type 0 where
  pub membership : OrgMembership
  pub user : User

module _ (engine : Engine) where
  abbrev pub OrgAnswer : Type 0 → Type 0
  OrgAnswer A = Result ApiError (A × OrgStore engine)

  abbrev pub found_or : {A : Type 0} → Option A → Result ApiError A
  found_or none = err not_found
  found_or (some a) = ok a

  unfoldable pub current_org : OrgStore engine → Uuid → Option Organization
  current_org store org = first (engine.select (λ o. o.id == org) store.organizations)

  unfoldable pub get_current : Context → OrgStore engine → Result ApiError Organization
  get_current ctx store = protected_procedure ctx (λ user org. found_or (current_org store org))

  -- `update`; no row matches where the organization is missing.
  unfoldable pub update_org :
      ℕ → Context → OrgStore engine → UpdateOrgInput → OrgAnswer Organization
  update_org now ctx store input = protected_procedure ctx (λ user org.
      elim (engine.update (λ o. o.id == org) (updated_org now input) store.organizations) [
        | none ↦ err database
        | some organizations ↦
            found_or (first (engine.select (λ o. o.id == org) organizations)) >>= λ updated.
            ok (updated, record store { organizations = organizations })
      ])

  -- The upsert of `inviteMember`: the row of the pair (org, user) is changed if there is one, and
  -- added otherwise.
  unfoldable pub upsert_membership :
      Uuid → ℕ → Uuid → Uuid → Uuid → OrgRole → OrgStore engine → Option (OrgStore engine)
  upsert_membership id now org invitee by role store =
      let there = first (engine.select (membership_of org invitee) store.org_memberships) in
      let new_row : OrgMembership = record {
        id = id;
        org_id = org;
        user_id = invitee;
        role = role;
        invited_by = some by;
        accepted_at = none;
        created_at = now;
      } in
      let written : Option (engine.Table OrgMembership) = elim there [
        | none ↦ engine.insert new_row store.org_memberships
        | some m ↦ engine.update (membership_of org invitee) (invited by role) store.org_memberships
      ] in
      elim written [ none ↦ none | some rows ↦ some (record store { org_memberships = rows }) ]

  unfoldable pub invite_member :
      Uuid → ℕ → Context → OrgStore engine → Text → MemberRole → Result ApiError (OrgStore engine)
  unfolding upsert_membership
  invite_member id now ctx store email role = protected_procedure ctx (λ user org.
      found_or (first (engine.select (λ u. text_eq u.email email) store.users)) >>= λ invitee.
      elim (upsert_membership id now org invitee.id user.id (role_of role) store) [
        | none ↦ err database
        | some store' ↦ ok store'
      ])

  -- The check that `removeMember` and `updateMemberRole` share.
  unfoldable pub refuse_owner : OrgStore engine → Uuid → Uuid → Result ApiError (Unit {0})
  unfolding current_org
  refuse_owner store org user_id =
      if is_owner user_id (current_org store org) then err forbidden else ok tt

  -- A membership of the organization, by its user.
  unfoldable pub find_membership : OrgStore engine → Uuid → Uuid → Result ApiError OrgMembership
  find_membership store org user_id =
      found_or (first (engine.select (membership_of org user_id) store.org_memberships))

  unfoldable pub remove_member :
      Context → OrgStore engine → Uuid → Result ApiError (OrgStore engine)
  unfolding refuse_owner find_membership
  remove_member ctx store user_id = protected_procedure ctx (λ user org.
      refuse_owner store org user_id
      >> (find_membership store org user_id >>= λ deleted. ok (record store {
        org_memberships = engine.delete (membership_of org user_id) store.org_memberships;
      })))

  unfoldable pub update_member_role :
      Context → OrgStore engine → Uuid → MemberRole → Result ApiError (OrgStore engine)
  unfolding refuse_owner find_membership
  update_member_role ctx store user_id role = protected_procedure ctx (λ user org.
      refuse_owner store org user_id
      >> elim (engine.update (membership_of org user_id) (λ m. record m { role = role_of role })
          store.org_memberships) [
            | none ↦ err database
            | some rows ↦ find_membership store org user_id >>= λ updated.
                ok (record store { org_memberships = rows })
          ])

  unfoldable pub members_joined : OrgMembership → List User → List Member
  members_joined m [] = []
  members_joined m (u ∷ us) = record { membership = m; user = u } ∷ members_joined m us

  -- `.innerJoin(users, eq(orgMemberships.userId, users.id))`
  unfoldable pub with_users : engine.Table User → List OrgMembership → List Member
  unfolding members_joined
  with_users users [] = []
  with_users users (m ∷ ms) =
      members_joined m (engine.select (λ u. u.id == m.user_id) users) ++ with_users users ms

  unfoldable pub list_members : Context → OrgStore engine → Result ApiError (List Member)
  unfolding with_users
  list_members ctx store = protected_procedure ctx (λ user org. ok (
      engine.order_asc (λ m. m.membership.created_at)
        (with_users store.users (engine.select (λ m. m.org_id == org) store.org_memberships))))
