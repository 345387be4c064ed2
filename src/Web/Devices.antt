-- ===== src/Web/Devices.antt =====
-- The page of apps/web/src/app/(dashboard)/devices/page.tsx: the query of its filters and what it
-- shows of the answer, with components/device-status-badge.tsx.
pub mod Shown
use mikrotikbandwidthmonitor.Prelude.{
  ltb, ◌==◌, if◌then◌else◌, length, some, ◌++◌, ◌∷◌, ◌&&◌, false, Bool, Option, none, ℕ, [], not,
  List, true,
}
use mikrotikbandwidthmonitor.Api.Schema.{
  rest, Uuid, ConnectionType, agent, binary_api, snmp, DeviceStatus, online, offline, warning,
  unreachable, Device,
}
use mikrotikbandwidthmonitor.Prelude.Bytes.{Text, codes}
use mikrotikbandwidthmonitor.Prelude.Decimal.{show_nat}
use mikrotikbandwidthmonitor.Web.Format.{em_dash, format_last_seen}
use mikrotikbandwidthmonitor.Api.Devices.{Page, ListInput, filled, or_default, status_eq}

-- The filters; `none` is `all`.
pub record DeviceFilters : Type 0 where
  pub search : Text
  pub status_filter : Option DeviceStatus

-- The values of `STATUS_OPTIONS`
abbrev pub status_options : List (Option DeviceStatus)
status_options = none ∷ some online ∷ some offline ∷ some warning ∷ some unreachable ∷ []

-- The input of `trpc.devices.list.useQuery`
unfoldable pub list_query : DeviceFilters → ListInput
list_query f = record {
  site_id = none;
  status = f.status_filter;
  tags = none;
  search = filled (some f.search);
  limit = 50;
  cursor = none;
}

-- What `useQuery` gives.
pub record DeviceQuery : Type 0 where
  pub is_loading : Bool
  pub is_error : Bool
  pub answer : Option (Page Device)

-- `data?.items ?? []` and `data?.nextCursor`
abbrev pub items_of : Option (Page Device) → List Device
items_of none = []
items_of (some page) = page.items

abbrev pub has_cursor : Option Uuid → Bool
has_cursor none = false
has_cursor (some id) = true

abbrev pub has_more : Option (Page Device) → Bool
has_more none = false
has_more (some page) = has_cursor page.next_cursor

-- The label of `statusConfig`
abbrev pub status_label : DeviceStatus → Text
status_label online = codes "Online"
status_label offline = codes "Offline"
status_label warning = codes "Warning"
status_label unreachable = codes "Unreachable"

-- `DeviceStatusBadge`: its label and whether its dot pulses.
pub record StatusBadge : Type 0 where
  pub label : Text
  pub pulses : Bool

unfoldable pub status_badge : DeviceStatus → (show_pulse : Bool) → StatusBadge
status_badge status show_pulse = record {
  label = status_label status;
  pulses = show_pulse && status_eq status online;
}

abbrev pub connection_text : ConnectionType → Text
connection_text agent = codes "agent"
connection_text rest = codes "rest"
connection_text binary_api = codes "binary_api"
connection_text snmp = codes "snmp"

-- A row of the table. The page reads `routerOsVersion`, which no answer has, so the version is always
-- a dash.
pub record DeviceRow : Type 0 where
  pub link : Uuid
  pub name : Text
  pub description : Option Text
  pub badge : StatusBadge
  pub ip_address : Text
  pub router_os : Text
  pub last_seen : Text
  pub connection : Text

unfoldable pub device_row : (now : ℕ) → Device → DeviceRow
unfolding status_badge format_last_seen
device_row now d = record {
  link = d.id;
  name = d.name;
  description = filled d.description;
  badge = status_badge d.status true;
  ip_address = or_default d.ip_address em_dash;
  router_os = em_dash;
  last_seen = format_last_seen now d.last_seen_at;
  connection = connection_text d.connection_type;
}

pub data Listing : Type 0 where
  spinner load_failed no_devices : Listing
  table : List DeviceRow → Listing

abbrev pub table_of : List DeviceRow → Listing
table_of [] = no_devices
table_of (r ∷ rs) = table (r ∷ rs)

unfoldable pub device_rows : (now : ℕ) → List Device → List DeviceRow
unfolding device_row
device_rows now [] = []
device_rows now (d ∷ ds) = device_row now d ∷ device_rows now ds

unfoldable pub listing : (now : ℕ) → DeviceQuery → Listing
unfolding device_rows
listing now q =
    if q.is_loading
    then spinner
    else if q.is_error
    then load_failed
    else table_of (device_rows now (items_of q.answer))

-- The line below the table; the dash is three bytes.
unfoldable pub paging_hint : DeviceQuery → Option Text
unfolding show_nat
paging_hint q =
    let count = length (items_of q.answer) in
    if not q.is_loading && ltb 0 count
    then some (
        codes "Showing "
        ++ (show_nat count
            ++ (codes " device"
                ++ ((if count == 1 then [] else codes "s")
                    ++ (if has_more q.answer
                        then 32 ∷ (em_dash ++ codes " scroll to load more")
                        else [])))))
    else none
