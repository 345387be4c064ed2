-- ===== src/Tests/Saas.antt =====
-- Sites, the audit trail, plans and sessions, on tables of lists.
use mikrotikbandwidthmonitor.Prelude.Bytes.{codes, text_eq}
use mikrotikbandwidthmonitor.Prelude.{◌⊎◌, ok, ℕ, [], List, refl, false, ◌≡◌, ◌∷◌, none, some}
use mikrotikbandwidthmonitor.Tests.Tables.{keep_if, put, sort, list_engine}
use mikrotikbandwidthmonitor.Tests.Devices.{eve}
use mikrotikbandwidthmonitor.Api.Billing.Ownership.{IsPlanOf, get_plan_owned}
use mikrotikbandwidthmonitor.Api.Devices.Tenancy.{member}
use mikrotikbandwidthmonitor.Api.Auth.Agreement.{
  PassedOn, Forbidden, org_auth_middleware-create_context,
}
use mikrotikbandwidthmonitor.Api.Sites.Listing.{IsListed, create_site-list_sites}
use mikrotikbandwidthmonitor.Api.Audit.{
  AuditInput, joined_with, log_matches, with_actors, audit_rows, list_audit,
}
use mikrotikbandwidthmonitor.Api.Database.{first}
use mikrotikbandwidthmonitor.Api.Auth.{next, answer, auth_middleware, org_auth_middleware}
use mikrotikbandwidthmonitor.Api.Sites.{SiteInput, new_site, list_sites, create_site}
use mikrotikbandwidthmonitor.Api.Schema.{Organization, User, AuditLog, Plan}
use mikrotikbandwidthmonitor.Api.Context.{AuthSession, create_context}
use mikrotikbandwidthmonitor.Api.Billing.{BillingStore, with_plans, plan_rows, get_plan}

run : Unit {0}
unfolding keep_if sort put first create_site list_sites list_audit audit_rows with_actors
    joined_with log_matches get_plan plan_rows with_plans create_context org_auth_middleware
    auth_middleware text_eq
run = tt

abbrev input : SiteInput
input = record { name = codes "hq"; location = none; latitude = none; longitude = none }

created :
    create_site list_engine 5 1 (member eve 7) [] input
    ≡ ok (new_site 5 1 7 input, new_site 5 1 7 input ∷ [])
unfolding run
created = refl

create_site-list_sites_example :
    IsListed list_engine eve eve 7 [] input (new_site 5 1 7 input ∷ []) (new_site 5 1 7 input)
create_site-list_sites_example = create_site-list_sites list_engine eve eve 7 [] 5 1 input created

abbrev entry : (id org_id at : ℕ) → AuditLog
entry id org_id at = record {
  id = id;
  org_id = org_id;
  actor_user_id = some 3;
  actor_api_key_id = none;
  actor_type = codes "user";
  action = codes "device.add";
  target_device_id = none;
  target_resource = none;
  payload_before = none;
  payload_after = none;
  ip_address = none;
  user_agent = none;
  created_at = at;
}

abbrev actor : User
actor = record {
  id = 3;
  email = codes "e@x";
  name = none;
  avatar_url = none;
  mfa_enabled = false;
  last_login_at = none;
  created_at = 0;
}

abbrev trail : List AuditLog
trail = entry 1 7 10 ∷ entry 2 8 11 ∷ entry 3 7 12 ∷ []

abbrev newest : AuditInput
newest = record {
  action = none;
  actor_user_id = some 3;
  device_id = none;
  actor_type = some (codes "user");
  from = some 11;
  to = none;
  limit = 1;
  offset = 0;
}

abbrev pro : Plan
pro = record {
  id = 2;
  name = codes "Pro";
  max_devices = some 50;
  max_users = some 10;
  metric_retention_days = 30;
  features = [];
  stripe_price_id = none;
  price_per_device_usd = none;
  created_at = 0;
}

abbrev acme : Organization
acme = record {
  id = 7;
  name = codes "acme";
  slug = codes "acme";
  plan_id = 2;
  owner_user_id = 3;
  settings = [];
  stripe_customer_id = none;
  created_at = 0;
  updated_at = 0;
}

abbrev billing : BillingStore list_engine
billing = record { organizations = acme ∷ []; plans = pro ∷ []; subscriptions = [] }

planned :
    get_plan list_engine (member eve 7) billing ≡ ok (record { plan = pro; subscription = none })
unfolding run
planned = refl

get_plan_owned_example : IsPlanOf list_engine billing 7 (record { plan = pro; subscription = none })
get_plan_owned_example = get_plan_owned list_engine billing 7 eve planned

abbrev session : AuthSession
session = record { user = eve; active_organization_id = none }

org_auth_middleware-create_context_example :
    (PassedOn session (some 7) (some 9) ⊎ Forbidden session (some 7) (some 9))
    × ((create_context (some session) (some 7) (some 9)).user ≡ some eve)
    × (auth_middleware (some session) ≡ next (record { session = session; org_id = none }))
    × (org_auth_middleware none (some 7) ≡ answer 401 (codes "Unauthorized"))
    × (auth_middleware none ≡ answer 401 (codes "Unauthorized"))
    × ((create_context none (some 7) (some 9)).user ≡ none)
org_auth_middleware-create_context_example =
    org_auth_middleware-create_context session (some 7) (some 9)
