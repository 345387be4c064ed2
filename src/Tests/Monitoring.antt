-- ===== src/Tests/Monitoring.antt =====
-- The pages of monitoring and of the details of a device, on answers of the API.
use mikrotikbandwidthmonitor.Prelude.{◌≡◌, refl, some, ◌*◌, ◌/◌, []}
use mikrotikbandwidthmonitor.Prelude.Int.{pos}
use mikrotikbandwidthmonitor.Prelude.Bytes.{codes}
use mikrotikbandwidthmonitor.Prelude.Decimal.{show_nat, digits_before}
use mikrotikbandwidthmonitor.RouterOs.Uptime.{int}
use mikrotikbandwidthmonitor.Web.Monitoring.{
  FleetCounts, fleet_counts, count_of, total_count, health, health_line,
}
use mikrotikbandwidthmonitor.Web.Detail.{memory_text, percent_text, show_number, show_mebibytes}

run : Unit {0}
unfolding fleet_counts count_of total_count health health_line show_nat digits_before show_number
    show_mebibytes
run = tt

abbrev counts : FleetCounts
counts = record { online_count = 3; offline_count = 1; warning_count = 0; unreachable_count = 0 }

healthy : health (λ a b. a * 100 / b) counts ≡ 75
unfolding run
healthy = refl

line : health_line counts ≡ codes "3 of 4 devices are online."
unfolding run
line = refl

-- A half is rounded up.
memory : memory_text (some (int (pos 1572864))) (some (int (pos 134217728))) ≡ codes "2 / 128 MiB"
unfolding run
memory = refl

load : percent_text (some (int (pos 7))) [] ≡ codes "7%"
unfolding run
load = refl
