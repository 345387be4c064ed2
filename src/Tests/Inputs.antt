-- ===== src/Tests/Inputs.antt =====
-- The checks of the inputs, the test over REST and the uptimes of the pages.
use mikrotikbandwidthmonitor.Web.Format.Uptime.{in_minutes, parse_uptime-format_uptime}
use mikrotikbandwidthmonitor.Web.Format.{format_uptime, format_last_seen}
use mikrotikbandwidthmonitor.Prelude.Bytes.{Text, codes}
use mikrotikbandwidthmonitor.Prelude.{false, All, refl, suc, ◌≡◌, true, ◌∷◌, some, ◌⊎◌, [], none}
use mikrotikbandwidthmonitor.Inputs.Wizard.{IsChecked, Reach-add_device_schema}
use mikrotikbandwidthmonitor.RouterOs.Uptime.{parse_uptime}
use mikrotikbandwidthmonitor.Tests.Wizard.{requested_dialog, requesting}
use mikrotikbandwidthmonitor.Rest.Outcomes.{Succeeds, Fails, test_rest_connection-IsGood}
use mikrotikbandwidthmonitor.Rest.{
  object, Fetched, thrown, response, rest_failure, test_rest_connection,
}
use mikrotikbandwidthmonitor.Inputs.{is_slug_from, create_org_schema}
use mikrotikbandwidthmonitor.Snmp.{starts_with}

abbrev slug : Text
slug = codes "acme-networks"

accepted : create_org_schema (codes "Acme") slug ≡ true
unfolding create_org_schema is_slug_from
accepted = refl

doubled : create_org_schema (codes "Acme") (codes "acme--networks") ≡ false
unfolding create_org_schema is_slug_from
doubled = refl

Reach-add_device_schema_example : All IsChecked (requested_dialog.requests)
Reach-add_device_schema_example = Reach-add_device_schema requesting

abbrev answered : Fetched
answered =
    response 200 (codes "OK")
      (object ((codes "version", codes "7.1") ∷ (codes "platform", codes "x") ∷ []))

test_rest_connection-IsGood_example : Succeeds answered ⊎ Fails answered
test_rest_connection-IsGood_example = test_rest_connection-IsGood answered

not_found_page :
    test_rest_connection (response 404 (codes "Not Found") (object []))
    ≡ rest_failure (codes "HTTP 404: Not Found")
unfolding test_rest_connection
not_found_page = refl

late :
    test_rest_connection (thrown (codes "The operation was aborted."))
    ≡ rest_failure (codes "Connection timed out (10s)")
unfolding test_rest_connection starts_with
late = refl

uptime : format_uptime (some 93784) ≡ codes "1d 2h 3m"
unfolding format_uptime
uptime = refl

parse_uptime-format_uptime_example :
    (parse_uptime (some (format_uptime (some (suc 93783)))) ≡ some (in_minutes (suc 93783)))
    × (parse_uptime (some (format_uptime (some 0))) ≡ none)
    × (parse_uptime (some (format_uptime none)) ≡ none)
parse_uptime-format_uptime_example = parse_uptime-format_uptime 93783

seen_before : format_last_seen 7300000 (some 0) ≡ codes "2h ago"
unfolding format_last_seen
seen_before = refl
