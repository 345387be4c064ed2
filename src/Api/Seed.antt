-- ===== src/Api/Seed.antt =====
-- packages/db/src/seed.ts: the rows of a development environment. Ids are the numbers of their
-- hexadecimal digits.
pub mod Again
use mikrotikbandwidthmonitor.Prelude.Bytes.{Text, codes}
use mikrotikbandwidthmonitor.Prelude.{◌==◌, none, false, Option, some, ◌∷◌, ℕ, ◌++◌, [], List}
use mikrotikbandwidthmonitor.Api.Devices.Tenancy.{id_of}
use mikrotikbandwidthmonitor.Api.Database.{Engine, first}
use mikrotikbandwidthmonitor.Api.Schema.{Uuid, owner, OrgMembership, Organization, User, Plan}

abbrev pub plan_row :
    (now : ℕ) (id : Uuid) (name : Text) (max_devices max_users : Option ℕ) (days : ℕ)
    (features : List Text) (price_id price : Option Text)
    → Plan
plan_row now id name max_devices max_users days features price_id price = record {
  id = id;
  name = name;
  max_devices = max_devices;
  max_users = max_users;
  metric_retention_days = days;
  features = features;
  stripe_price_id = price_id;
  price_per_device_usd = price;
  created_at = now;
}

abbrev pub pro_features : List Text
pro_features = codes "config_backups" ∷ codes "alerting" ∷ codes "api_access" ∷ []

-- `SEED_PLANS`
abbrev pub seed_plans : (now : ℕ) → List Plan
seed_plans now =
    plan_row now 1 (codes "Free") (some 3) (some 2) 3 [] none none
    ∷ plan_row now 2 (codes "Pro") (some 50) (some 10) 30 pro_features
        (some (codes "price_pro_monthly")) (some (codes "2.0000"))
    ∷ plan_row now 3 (codes "Business") none none 90
        (pro_features ++ (codes "sso" ∷ codes "audit_logs" ∷ codes "white_label" ∷ []))
        (some (codes "price_business_monthly")) (some (codes "1.5000"))
    ∷ []

-- `SEED_USER`
abbrev pub seed_user : (now : ℕ) → User
seed_user now = record {
  id = 0x10;
  email = codes "admin@example.com";
  name = some (codes "Test Admin");
  avatar_url = none;
  mfa_enabled = false;
  last_login_at = none;
  created_at = now;
}

-- `SEED_ORG`
abbrev pub seed_org : (now : ℕ) → Organization
seed_org now = record {
  id = 0x20;
  name = codes "Acme Networks";
  slug = codes "acme-networks";
  plan_id = 2;
  owner_user_id = 0x10;
  settings = codes "{}";
  stripe_customer_id = none;
  created_at = now;
  updated_at = now;
}

-- `SEED_MEMBERSHIP`
abbrev pub seed_membership : (now : ℕ) → OrgMembership
seed_membership now = record {
  id = 0x30;
  org_id = 0x20;
  user_id = 0x10;
  role = owner;
  invited_by = none;
  accepted_at = some now;
  created_at = now;
}

module _ (engine : Engine) where
  -- The tables that the script fills.
  pub record SeedStore : Type 0 where
    pub plans : engine.Table Plan
    pub users : engine.Table User
    pub organizations : engine.Table Organization
    pub org_memberships : engine.Table OrgMembership

  -- `insert(…).values(row).onConflictDoNothing({ target: id })`
  unfoldable pub insert_new :
      {A : Type 0} → (A → Uuid) → A → engine.Table A → Option (engine.Table A)
  insert_new id_of row t = elim (first (engine.select (λ x. id_of x == id_of row) t)) [
    | some old ↦ some t
    | none ↦ engine.insert row t
  ]

  unfoldable pub insert_each :
      {A : Type 0} → (A → Uuid) → List A → engine.Table A → Option (engine.Table A)
  unfolding insert_new
  insert_each id_of [] t = some t
  insert_each id_of (row ∷ rows) t = elim (insert_new id_of row t) [
    | none ↦ none
    | some t' ↦ insert_each id_of rows t'
  ]

  -- `seed`; `none` is a statement that the database refuses.
  unfoldable pub seed : (now : ℕ) → SeedStore → Option SeedStore
  seed now store = elim (insert_each (λ p. p.id) (seed_plans now) store.plans) [
    | none ↦ none
    | some plans ↦ elim (insert_new (λ u. u.id) (seed_user now) store.users) [
      | none ↦ none
      | some users ↦ elim (insert_new (λ o. o.id) (seed_org now) store.organizations) [
        | none ↦ none
        | some organizations ↦
            elim (insert_new (λ m. m.id) (seed_membership now) store.org_memberships) [
              | none ↦ none
              | some memberships ↦ some (record {
                plans = plans;
                users = users;
                organizations = organizations;
                org_memberships = memberships;
              })
            ]
      ]
    ]
  ]
