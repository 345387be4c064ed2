-- ===== src/Tests/Orgs.antt =====
-- The organizations router on one organization with its owner and one more member.
use mikrotikbandwidthmonitor.Prelude.{
  ◌≡◌, ◌==◌, false, ℕ, refl, none, some, List, [], ◌∷◌, ok, inl, ◌&&◌, not,
}
use mikrotikbandwidthmonitor.Prelude.Bytes.{codes, text_eq}
use mikrotikbandwidthmonitor.Api.Database.{first}
use mikrotikbandwidthmonitor.Api.Schema.{
  Uuid, owner, viewer, Organization, OrgMembership, User, OrgStore, Store, ConfigSnapshot, manual,
}
use mikrotikbandwidthmonitor.Api.Context.{SessionUser}
use mikrotikbandwidthmonitor.Api.Config.{
  diff, find_snapshot, includes, split_lines, lines_not_in, diff_of,
}
use mikrotikbandwidthmonitor.Api.Config.Tenancy.{IsOwn, diff_owned}
use mikrotikbandwidthmonitor.Api.Config.Diff.{includes-diff_of}
use mikrotikbandwidthmonitor.Api.Devices.Tenancy.{member}
use mikrotikbandwidthmonitor.Api.Orgs.{as_viewer, current_org, invite_member, upsert_membership}
use mikrotikbandwidthmonitor.Api.Orgs.Ownership.{invite_resets}
use mikrotikbandwidthmonitor.Tests.Tables.{list_engine, keep_if, set_if}

run : Unit {0}
unfolding keep_if set_if first current_org invite_member upsert_membership text_eq includes
    split_lines lines_not_in
run = tt

abbrev pub acme : Organization
acme = record {
  id = 7;
  name = codes "Acme";
  slug = codes "acme";
  plan_id = 1;
  owner_user_id = 3;
  settings = codes "{}";
  stripe_customer_id = none;
  created_at = 0;
  updated_at = 0;
}

abbrev owns : OrgMembership
owns = record {
  id = 1;
  org_id = 7;
  user_id = 3;
  role = owner;
  invited_by = none;
  accepted_at = some 5;
  created_at = 0;
}

abbrev demoted : OrgMembership
demoted = record owns { role = viewer; invited_by = some 4; accepted_at = none }

abbrev eve : User
eve = record {
  id = 3;
  email = codes "e@x";
  name = none;
  avatar_url = none;
  mfa_enabled = false;
  last_login_at = none;
  created_at = 0;
}

abbrev with_members : List OrgMembership → OrgStore list_engine
with_members ms = record { organizations = acme ∷ []; org_memberships = ms; users = eve ∷ [] }

abbrev bob : SessionUser
bob = record { id = 4; email = codes "b@x"; name = none; image = none }

known : first (keep_if (λ u. text_eq u.email (codes "e@x")) (eve ∷ [])) ≡ some eve
unfolding run
known = refl

there :
    first (keep_if (λ (m : OrgMembership). m.org_id == 7 && m.user_id == 3) (owns ∷ [])) ≡ some owns
unfolding run
there = refl

invited :
    invite_member list_engine 9 1 (member bob 7) (with_members (owns ∷ [])) (codes "e@x") as_viewer
    ≡ ok (with_members (demoted ∷ []))
unfolding run
invited = refl

invite_resets_example : (demoted.role ≡ viewer) × (demoted.accepted_at ≡ none)
invite_resets_example =
    invite_resets list_engine bob (with_members (owns ∷ [])) 7 9 1 (codes "e@x") as_viewer eve owns
      demoted known there invited (inl refl) refl

abbrev snapshot : Uuid → List ℕ → ConfigSnapshot
snapshot id text = record {
  id = id;
  device_id = 1;
  org_id = 7;
  taken_at = id;
  triggered_by = manual;
  triggered_by_user_id = none;
  export_rsc = text;
  size_bytes = none;
  storage_key = none;
  checksum = none;
}

includes-diff_of_example :
    (includes (codes "b") (diff_of (snapshot 1 (codes "a")) (snapshot 2 (codes "b"))).added ≡ (
      includes (codes "b") (split_lines (codes "b"))
      && not (includes (codes "b") (split_lines (codes "a")))))
    × (includes (codes "b") (diff_of (snapshot 1 (codes "a")) (snapshot 2 (codes "b"))).removed ≡ (
        includes (codes "b") (split_lines (codes "a"))
        && not (includes (codes "b") (split_lines (codes "b")))))
includes-diff_of_example =
    includes-diff_of (snapshot 1 (codes "a")) (snapshot 2 (codes "b")) (codes "b")

abbrev two_snapshots : Store list_engine
two_snapshots = record {
  devices = [];
  device_metrics = [];
  agent_enrollments = [];
  config_snapshots = snapshot 1 (codes "a") ∷ snapshot 2 (codes "b") ∷ [];
  pending_commands = [];
  alert_rules = [];
  alert_events = [];
  jobs = [];
}

compared :
    diff list_engine (member bob 7) two_snapshots 1 2
    ≡ ok (diff_of (snapshot 1 (codes "a")) (snapshot 2 (codes "b")))
unfolding run diff find_snapshot
compared = refl

diff_owned_example :
    (a b : ConfigSnapshot) × IsOwn list_engine bob 7 two_snapshots 1 a
    × IsOwn list_engine bob 7 two_snapshots 2 b
    × (diff_of (snapshot 1 (codes "a")) (snapshot 2 (codes "b")) ≡ diff_of a b)
diff_owned_example = diff_owned list_engine bob 7 two_snapshots 1 2 compared
