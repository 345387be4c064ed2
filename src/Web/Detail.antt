-- ===== src/Web/Detail.antt =====
-- The page of apps/web/src/app/(dashboard)/devices/[id]/page.tsx: what it shows of the answer of
-- `devices.get`.
use mikrotikbandwidthmonitor.Prelude.{
  some, ◌∷◌, suc, List, none, ◌+◌, ◌/◌, zero, ◌++◌, Option, ◌^◌, true, ℕ, [],
}
use mikrotikbandwidthmonitor.Api.Database.{Engine}
use mikrotikbandwidthmonitor.Api.Schema.{Uuid}
use mikrotikbandwidthmonitor.Api.Devices.{DeviceDetail, or_default}
use mikrotikbandwidthmonitor.Prelude.Bytes.{Text, codes}
use mikrotikbandwidthmonitor.Prelude.Int.{pos, negsuc}
use mikrotikbandwidthmonitor.Prelude.Decimal.{show_nat}
use mikrotikbandwidthmonitor.RouterOs.Uptime.{Number, nan, int}
use mikrotikbandwidthmonitor.Web.Format.{em_dash, format_uptime}
use mikrotikbandwidthmonitor.Web.Devices.{StatusBadge, status_badge, connection_text}

-- `Tab`, its labels and its panels
pub data Tab : Type 0 where
  overview metrics config alerts : Tab

abbrev pub tab_label : Tab → Text
tab_label overview = codes "Overview"
tab_label metrics = codes "Metrics"
tab_label config = codes "Config"
tab_label alerts = codes "Alerts"

-- A number in a template literal
unfoldable pub show_number : Number → Text
unfolding show_nat
show_number nan = codes "NaN"
show_number (int (pos n)) = show_nat n
show_number (int (negsuc n)) = b'-' ∷ show_nat (suc n)

abbrev pub negative_text : ℕ → Text
negative_text zero = codes "0"
negative_text (suc n) = b'-' ∷ show_nat (suc n)

-- `Math.round(n / 1024 / 1024)`: the division is exact, and a half is rounded up.
unfoldable pub show_mebibytes : Number → Text
unfolding show_nat
show_mebibytes nan = codes "NaN"
show_mebibytes (int (pos n)) = show_nat ((n + 2 ^ 19) / 2 ^ 20)
show_mebibytes (int (negsuc n)) = negative_text ((n + 2 ^ 19) / 2 ^ 20)

abbrev pub percent_text : Option Number → (absent : Text) → Text
percent_text none absent = absent
percent_text (some n) absent = show_number n ++ codes "%"

-- `free` and `total` where both are there
abbrev pub both : Option Number → Option Number → (Number → Number → Text) → (absent : Text) → Text
both (some a) (some b) shown absent = shown a b
both (some a) none shown absent = absent
both none b shown absent = absent

abbrev pub memory_text : Option Number → Option Number → Text
memory_text free total =
    both free total (λ a b. show_mebibytes a ++ (codes " / " ++ (show_mebibytes b ++ codes " MiB")))
      em_dash

abbrev pub count_text : Option ℕ → Text
count_text none = codes "N/A"
count_text (some n) = show_nat n

pub record InfoRow : Type 0 where
  pub label : Text
  pub value : Text

abbrev pub row : Text → Text → InfoRow
row label value = record { label = label; value = value }

-- The panel of a tab: that of the overview has three numbers, the others have none yet.
pub data Panel : Type 0 where
  numbers : List InfoRow → Panel
  placeholder : (title : Text) → Panel

pub record DetailView : Type 0 where
  pub title : Text
  pub badge : StatusBadge
  pub id : Uuid
  pub info : List InfoRow
  pub panel : Panel

module _ (engine : Engine) where
  abbrev pub info_rows : DeviceDetail engine → List InfoRow
  info_rows d =
      row (codes "Model") (or_default d.device.model em_dash)
      ∷ row (codes "RouterOS version") (or_default d.device.ros_version em_dash)
      ∷ row (codes "Connection type") (connection_text d.device.connection_type)
      ∷ row (codes "IP address") (or_default d.device.ip_address em_dash)
      ∷ row (codes "Uptime") (format_uptime d.uptime_seconds)
      ∷ row (codes "MAC address") (or_default d.device.mac_address em_dash)
      ∷ row (codes "CPU load") (percent_text d.last_cpu_load em_dash)
      ∷ row (codes "Free memory") (memory_text d.last_free_memory d.last_total_memory)
      ∷ []

  -- `percent_used` is `Math.round((1 - free / total) * 100)`, of floating-point numbers.
  abbrev pub panel_of :
      (percent_used : Number → Number → Number) → Tab → DeviceDetail engine → Panel
  panel_of percent_used overview d = numbers (
      row (codes "CPU") (percent_text d.last_cpu_load (codes "N/A"))
      ∷ row (codes "Memory") (
          both d.last_free_memory d.last_total_memory
            (λ a b. show_number (percent_used a b) ++ codes "%") (codes "N/A"))
      ∷ row (codes "Interfaces") (count_text d.interface_count)
      ∷ [])
  panel_of percent_used metrics d = placeholder (codes "Metric charts")
  panel_of percent_used config d = placeholder (codes "Configuration backups")
  panel_of percent_used alerts d = placeholder (codes "Alert rules")

  unfoldable pub detail_view :
      (percent_used : Number → Number → Number) → Tab → DeviceDetail engine → DetailView
  unfolding status_badge show_number show_mebibytes format_uptime show_nat
  detail_view percent_used tab d = record {
    title = d.device.name;
    badge = status_badge d.device.status true;
    id = d.device.id;
    info = info_rows d;
    panel = panel_of percent_used tab d;
  }
