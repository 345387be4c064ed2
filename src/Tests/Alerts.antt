-- ===== src/Tests/Alerts.antt =====
-- Runs of the page of alert rules, where the browser lets through what is not empty.

use mikrotikbandwidthmonitor.Prelude.{[], Option, some, none, ℕ, true, ◌≡◌, refl, ◌∷◌, Bool}
use mikrotikbandwidthmonitor.Web.Alerts.{
  initial_rule, AlertsPage, initial_page, toggle_channel, rule_request, handle_submit, on_created,
  toggle_rule, press_submit, rule_created, page_event, rule_row,
}
use mikrotikbandwidthmonitor.Web.Text.{filled_text}
use mikrotikbandwidthmonitor.Prelude.Bytes.{Text, codes, text_eq}
use mikrotikbandwidthmonitor.Prelude.Decimal.{digits_before, show_nat}
use mikrotikbandwidthmonitor.RouterOs.Uptime.{parse_digits, parse_int}
use mikrotikbandwidthmonitor.Api.Config.{includes}

abbrev not_empty : (low high : Option ℕ) → Text → Bool
not_empty low high s = filled_text s

run : Unit {0}
unfolding page_event handle_submit on_created toggle_channel toggle_rule includes text_eq parse_int
    parse_digits rule_row show_nat digits_before
run = tt

abbrev opened : AlertsPage
opened = record initial_page { create_open = true }

abbrev named : AlertsPage
named = record opened { form = record initial_rule { name = codes "cpu high" } }

abbrev selected : AlertsPage
selected = record named {
  form = record named.form { channels = codes "email" ∷ codes "slack" ∷ [] };
}

abbrev submitted : AlertsPage
submitted = record selected { pending = true; created = rule_request selected.form ∷ [] }

-- While the call is on its way the form cannot be sent again.
sent_once : page_event not_empty submitted press_submit ≡ none
unfolding run
sent_once = refl

-- What is typed while it is on its way is lost with its answer.
abbrev typed : AlertsPage
typed = record submitted { form = record submitted.form { name = codes "disk full" } }

lost :
    page_event not_empty typed rule_created
    ≡ some (record initial_page { created = submitted.created; invalidated = 1 })
unfolding run
lost = refl
