-- ===== src/Web/Devices/Shown.antt =====
-- What the page of devices shows of the answer of `devices.list`.
use mikrotikbandwidthmonitor.Web.Devices.{
  DeviceFilters, list_query, DeviceQuery, DeviceRow, Listing, table,
}
use mikrotikbandwidthmonitor.Prelude.{some, false, ◌≡◌, [], List, true}
use mikrotikbandwidthmonitor.Api.Devices.{Page}
use mikrotikbandwidthmonitor.Api.Database.{Engine}
use mikrotikbandwidthmonitor.Api.Schema.{Uuid, Device, Store}
use mikrotikbandwidthmonitor.Api.Context.{SessionUser}
use mikrotikbandwidthmonitor.Api.Devices.{by_status, matches}

abbrev pub rows_of : Listing → List DeviceRow
rows_of (table rows) = rows
rows_of _ = []

abbrev pub answered_with : Page Device → DeviceQuery
answered_with page = record { is_loading = false; is_error = false; answer = some page }

module _ (engine : Engine) (user : SessionUser) (org : Uuid) (store : Store engine) where
  -- The devices that the filters select, in the order of their ids.
  abbrev pub selected_devices : DeviceFilters → List Device
  selected_devices f =
      engine.order_asc (λ d. d.id) (engine.select (matches engine org (list_query f)) store.devices)

  -- A device of the caller's organization with the status that was chosen.
  abbrev pub IsWanted : DeviceFilters → Device → Type 0
  IsWanted f d =
      engine.Has store.devices d × (d.org_id ≡ org) × (by_status engine f.status_filter d ≡ true)
