-- ===== src/Web/Alerts/Reachable.antt =====
-- The pages of apps/web/src/app/(dashboard)/alerts/page.tsx that some events lead to.

use mikrotikbandwidthmonitor.Web.Alerts.Channels.{AreChannels}
use mikrotikbandwidthmonitor.Web.Alerts.{NewRule, AlertsPage, none_selected}
use mikrotikbandwidthmonitor.Web.Text.{filled_text}
use mikrotikbandwidthmonitor.Prelude.Bytes.{Text}
use mikrotikbandwidthmonitor.Prelude.Int.{pos, negsuc}
use mikrotikbandwidthmonitor.Prelude.{All, true, some, none, ◌⊎◌, ◌≡◌, false, ℕ, Option, Bool}
use mikrotikbandwidthmonitor.RouterOs.Uptime.{Number, nan, int, parse_int}
use mikrotikbandwidthmonitor.Api.Alerts.{CreateRuleInput}
use mikrotikbandwidthmonitor.Inputs.{is_between, create_alert_rule_schema}

-- A number of minutes that the API takes.
abbrev pub is_cooldown : Number → Bool
is_cooldown nan = false
is_cooldown (int (negsuc n)) = false
is_cooldown (int (pos n)) = is_between 1 1440 n

abbrev pub input_of : NewRule → ℕ → CreateRuleInput
input_of r n = record {
  device_id = none;
  name = r.name;
  metric = r.metric;
  operator = r.operator;
  threshold = r.threshold;
  channels = r.channels;
  cooldown_minutes = n;
  enabled = true;
}

-- Whether `createAlertRuleSchema` accepts a request of the page; NaN is sent as null.
abbrev pub is_accepted : NewRule → Number → Bool
is_accepted r nan = false
is_accepted r (int (negsuc n)) = false
is_accepted r (int (pos n)) = create_alert_rule_schema (input_of r n)

module _ (in_range : Option ℕ → Option ℕ → Text → Bool) where
  abbrev pub IsRuleSound : NewRule → Type 0
  IsRuleSound r =
      (filled_text r.metric ≡ true)
      × (none_selected r.channels ≡ false)
      × AreChannels r.channels
      × ((s : Text) × (in_range (some 1) (some 1440) s ≡ true) × (r.cooldown_minutes ≡ parse_int s))
      × (is_accepted r r.cooldown_minutes ≡ is_cooldown r.cooldown_minutes)

  abbrev pub IsWellFormed : AlertsPage → Type 0
  IsWellFormed page =
      AreChannels page.form.channels
      × ((page.pending ≡ false) ⊎ (page.error ≡ none))
      × All IsRuleSound page.created
