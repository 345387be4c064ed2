-- ===== src/Tests/Seed.antt =====
-- The script of packages/db/src/seed.ts, on tables of lists.
use mikrotikbandwidthmonitor.Prelude.{refl, [], ◌≡◌, some, ◌∷◌, List}
use mikrotikbandwidthmonitor.Tests.Tables.{keep_if, put, sort, list_engine}
use mikrotikbandwidthmonitor.Api.Database.{first}
use mikrotikbandwidthmonitor.Api.Schema.{Plan, User, Organization, OrgMembership}
use mikrotikbandwidthmonitor.Api.Seed.Again.{seed-seed}
use mikrotikbandwidthmonitor.Api.Seed.{
  SeedStore, insert_new, insert_each, seed, seed_plans, seed_user, seed_org, seed_membership,
}

abbrev empty : SeedStore list_engine
empty = record { plans = []; users = []; organizations = []; org_memberships = [] }

unfoldable backwards : {A : Type 0} → List A → List A → List A
backwards [] ys = ys
backwards (x ∷ xs) ys = backwards xs (x ∷ ys)

abbrev filled : SeedStore list_engine
filled = record {
  plans = backwards (seed_plans 5) [];
  users = seed_user 5 ∷ [];
  organizations = seed_org 5 ∷ [];
  org_memberships = seed_membership 5 ∷ [];
}

run : Unit {0}
unfolding keep_if sort put first seed insert_each insert_new backwards
run = tt

seeded : seed list_engine 5 empty ≡ some filled
unfolding run
seeded = refl

seed-seed_example :
    (seed list_engine 9 filled ≡ some filled)
    × ((p : Plan) → list_engine.Has empty.plans p → list_engine.Has filled.plans p)
    × ((u : User) → list_engine.Has empty.users u → list_engine.Has filled.users u)
    × ((o : Organization)
        → list_engine.Has empty.organizations o
        → list_engine.Has filled.organizations o)
    × ((m : OrgMembership)
        → list_engine.Has empty.org_memberships m
        → list_engine.Has filled.org_memberships m)
seed-seed_example = seed-seed list_engine 5 9 empty seeded
