-- ===== src/Tests/DevicesPage.antt =====
-- The page of devices, on the answer of a table of lists.

use mikrotikbandwidthmonitor.Web.Devices.Shown.{answered_with}
use mikrotikbandwidthmonitor.Web.Format.{format_last_seen}
use mikrotikbandwidthmonitor.Web.Devices.{
  DeviceFilters, list_query, status_badge, device_row, device_rows, listing, paging_hint,
}
use mikrotikbandwidthmonitor.Prelude.Bytes.{codes}
use mikrotikbandwidthmonitor.Prelude.Decimal.{digits_before, show_nat}
use mikrotikbandwidthmonitor.Prelude.{none, ◌≡◌, ◌∷◌, some, [], refl}
use mikrotikbandwidthmonitor.Tests.Tables.{keep_if, put, sort}
use mikrotikbandwidthmonitor.Tests.Devices.{device}
use mikrotikbandwidthmonitor.Api.Schema.{online, Device}
use mikrotikbandwidthmonitor.Api.Devices.{matches, list, Page}

run : Unit {0}
unfolding list matches keep_if put sort list_query listing paging_hint device_rows device_row
    status_badge format_last_seen show_nat digits_before
run = tt

abbrev online_ones : DeviceFilters
online_ones = record { search = []; status_filter = some online }

abbrev answered : Page Device
answered = record { items = device 2 7 ∷ device 4 7 ∷ device 5 7 ∷ []; next_cursor = none }

hinted : paging_hint (answered_with answered) ≡ some (codes "Showing 3 devices")
unfolding run
hinted = refl
