-- ===== src/Api/Config/Tenancy.antt =====
-- Whose snapshots apps/api/src/trpc/routers/config.ts reads.
use mikrotikbandwidthmonitor.Prelude.{
  subst, ◌≡◌, ◌&&◌, ◌==◌, inl, inr, Result-cases, Option-cases, ok, arith,
}
use mikrotikbandwidthmonitor.Api.Database.{Engine, first}
use mikrotikbandwidthmonitor.Api.Schema.{Uuid, ConfigSnapshot, Store}
use mikrotikbandwidthmonitor.Api.Context.{SessionUser}
use mikrotikbandwidthmonitor.Api.Tenancy.{first-select}
use mikrotikbandwidthmonitor.Api.Devices.Tenancy.{member}
use mikrotikbandwidthmonitor.Api.Config.{find_snapshot, diff, diff_of, DiffResult}

module _ (engine : Engine) (user : SessionUser) (org : Uuid) (store : Store engine) where
  -- A snapshot of the table, of an id and of the organization.
  pub record IsOwn (id : Uuid) (s : ConfigSnapshot) : Type 0 where
    pub stored : engine.Has store.config_snapshots s
    pub named : s.id ≡ id
    pub own : s.org_id ≡ org

  find_snapshot-IsOwn :
      (id : Uuid) {s : ConfigSnapshot} → find_snapshot engine store org id ≡ ok s → IsOwn id s
  unfolding find_snapshot
  find_snapshot-IsOwn id {s} e =
      elim (Option-cases
        (first (engine.select (λ t. t.id == id && t.org_id == org) store.config_snapshots))) [
          | inl absent ↦ cc (rw (absent, find_snapshot) at e)
          | inr (t, found) ↦
              let (h, o) =
                first-select engine (λ t. t.id == id && t.org_id == org) store.config_snapshots
                  found in
              let same : t ≡ s = cc (rw (found, find_snapshot) at e) in
              subst (IsOwn id) same
                (record { stored = h; named = ground arith; own = ground arith })
        ]

  -- A diff that is answered is the diff of the two snapshots of the given ids, in the given order, and
  -- both belong to the caller's organization.
  pub diff_owned :
      (id_a id_b : Uuid) {answer : DiffResult}
      → diff engine (member user org) store id_a id_b ≡ ok answer
      → (a b : ConfigSnapshot) × IsOwn id_a a × IsOwn id_b b × (answer ≡ diff_of a b)
  unfolding diff
  diff_owned id_a id_b {answer} e = elim (Result-cases (find_snapshot engine store org id_a)) [
    | inl (denied, no_a) ↦ cc (rw (no_a, diff) at e)
    | inr (a, found_a) ↦ elim (Result-cases (find_snapshot engine store org id_b)) [
      | inl (denied, no_b) ↦ cc (rw (found_a, diff) at e)
      | inr (b, found_b) ↦ (
        a,
        b,
        find_snapshot-IsOwn id_a found_a,
        find_snapshot-IsOwn id_b found_b,
        cc (rw (found_a, diff) at e),
      )
    ]
  ]
