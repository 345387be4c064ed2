-- ===== src/Web/Monitoring.antt =====
-- The page of apps/web/src/app/(dashboard)/monitoring/page.tsx: its queries and what it counts of
-- their answers.
pub mod Counts
use mikrotikbandwidthmonitor.Prelude.{
  ltb, if◌then◌else◌, length, some, none, ◌+◌, ◌++◌, Option, true, ℕ,
}
use mikrotikbandwidthmonitor.Api.Schema.{
  Uuid, DeviceStatus, online, offline, warning, unreachable, Device,
}
use mikrotikbandwidthmonitor.Prelude.Bytes.{Text, codes}
use mikrotikbandwidthmonitor.Prelude.Decimal.{show_nat}
use mikrotikbandwidthmonitor.Web.Devices.{StatusBadge, status_badge}
use mikrotikbandwidthmonitor.Api.Devices.{Page, ListInput, or_default}

-- The inputs of the queries: one for each status, and one for the table.
unfoldable pub status_query : DeviceStatus → ListInput
status_query status = record {
  site_id = none;
  status = some status;
  tags = none;
  search = none;
  limit = 100;
  cursor = none;
}

abbrev pub recent_query : ListInput
recent_query = record {
  site_id = none;
  status = none;
  tags = none;
  search = none;
  limit = 20;
  cursor = none;
}

-- `data?.items.length ?? 0`
unfoldable pub count_of : Option (Page Device) → ℕ
count_of none = 0
count_of (some page) = length page.items

pub record FleetCounts : Type 0 where
  pub online_count : ℕ
  pub offline_count : ℕ
  pub warning_count : ℕ
  pub unreachable_count : ℕ

unfoldable pub fleet_counts : (answers : DeviceStatus → Option (Page Device)) → FleetCounts
unfolding count_of
fleet_counts answers = record {
  online_count = count_of (answers online);
  offline_count = count_of (answers offline);
  warning_count = count_of (answers warning);
  unreachable_count = count_of (answers unreachable);
}

unfoldable pub total_count : FleetCounts → ℕ
total_count c = c.online_count + c.offline_count + c.warning_count + c.unreachable_count

-- `percent` is `Math.round((a / b) * 100)`, of floating-point numbers.
unfoldable pub health : (percent : ℕ → ℕ → ℕ) → FleetCounts → ℕ
unfolding total_count
health percent c = if ltb 0 (total_count c) then percent c.online_count (total_count c) else 0

-- A row of the table of recent devices
pub record RecentRow : Type 0 where
  pub link : Uuid
  pub name : Text
  pub address : Text
  pub badge : StatusBadge

unfoldable pub recent_row : Device → RecentRow
unfolding status_badge
recent_row d = record {
  link = d.id;
  name = d.name;
  address = or_default d.ip_address (codes "No IP");
  badge = status_badge d.status true;
}

-- The line below `Fleet health`
unfoldable pub health_line : FleetCounts → Text
unfolding total_count show_nat
health_line c =
    show_nat c.online_count
    ++ (codes " of " ++ (show_nat (total_count c) ++ codes " devices are online."))
