-- ===== src/Web/Monitoring/Counts.antt =====
-- What the page of monitoring counts of the devices of an organization.
use mikrotikbandwidthmonitor.Prelude.{
  subst, ltb, Bool-cases, length, take, length-take, ok, ◌≡◌, arith, ℕ, some, List, ◌≤◌, inl, ◌+◌,
  refl, inr,
}
use mikrotikbandwidthmonitor.Web.Monitoring.{count_of, status_query, fleet_counts, total_count}
use mikrotikbandwidthmonitor.Api.Devices.Tenancy.{member, id_of}
use mikrotikbandwidthmonitor.Api.Devices.Pages.{page_full, page_short}
use mikrotikbandwidthmonitor.Api.Database.{Engine}
use mikrotikbandwidthmonitor.Api.Schema.{
  Uuid, DeviceStatus, online, offline, warning, unreachable, Device, Store,
}
use mikrotikbandwidthmonitor.Api.Context.{SessionUser}
use mikrotikbandwidthmonitor.Api.Devices.{matches, list, Page, page_of}
use Prim.Native.Nat.{min}

page_of-min :
    (n : ℕ) (xs : List Device)
    → length (page_of id_of n (take (n + 1) xs)).items ≡ min n (length xs)
page_of-min n xs = elim (Bool-cases (ltb n (length xs))) [
  | inl more ↦ rw (page_full n xs (ground arith)) (length-take n xs)
  | inr all_there ↦ rw (page_short n xs (ground arith)) (ground arith)
]

module _ (engine : Engine) (user : SessionUser) (org : Uuid) (store : Store engine) where
  -- The devices of the organization with a status.
  abbrev pub devices_with : DeviceStatus → List Device
  devices_with status =
      engine.order_asc (λ d. d.id)
        (engine.select (matches engine org (status_query status)) store.devices)

  counted :
      (status : DeviceStatus) (page : Page Device)
      → list engine (member user org) store (status_query status) ≡ ok page
      → count_of (some page) ≡ min 100 (length (devices_with status))
  unfolding list matches status_query count_of
  counted status page e =
      let same : page_of id_of 100 (take 101 (devices_with status)) ≡ page = cc e in
      subst (λ (p : Page Device). length p.items ≡ min 100 (length (devices_with status))) same
        (page_of-min 100 (devices_with status))

  -- The counts of the page are those of the devices of the caller's organization with each status,
  -- of 100 at most; so there are never more than 400 in all, and not more online than in all.
  pub fleet_counts-list :
      (pages : DeviceStatus → Page Device)
      → ((status : DeviceStatus)
          → list engine (member user org) store (status_query status) ≡ ok (pages status))
      → (fleet_counts (λ s. some (pages s)) ≡ record {
        online_count = min 100 (length (devices_with online));
        offline_count = min 100 (length (devices_with offline));
        warning_count = min 100 (length (devices_with warning));
        unreachable_count = min 100 (length (devices_with unreachable));
      })
        × (total_count (fleet_counts (λ s. some (pages s))) ≤ 400)
        × ((fleet_counts (λ s. some (pages s))).online_count
            ≤ total_count (fleet_counts (λ s. some (pages s))))
  unfolding fleet_counts total_count
  fleet_counts-list pages given =
      let a = counted online (pages online) (given online) in
      let b = counted offline (pages offline) (given offline) in
      let c = counted warning (pages warning) (given warning) in
      let d = counted unreachable (pages unreachable) (given unreachable) in
      (rw (a, b, c, d) refl, rw (a, b, c, d) (ground arith), rw (a, b, c, d) (ground arith))
