-- ===== src/Tests/Devices.antt =====
-- The devices router on a table of two organizations.
use mikrotikbandwidthmonitor.Prelude.{
  true, some, ◌≡◌, ◌≤◌, refl, none, List, [], ◌∷◌, ok, All, inl, inr, ap, ◌∙◌, sym, arith,
}
use mikrotikbandwidthmonitor.Prelude.Bytes.{codes}
use mikrotikbandwidthmonitor.Api.Database.{first}
use mikrotikbandwidthmonitor.Api.Schema.{AlertRule, gt, agent, Uuid, rest, online, Device, Store}
use mikrotikbandwidthmonitor.Api.Context.{SessionUser}
use mikrotikbandwidthmonitor.Api.Devices.{
  ListInput, Page, list, find_owned, get, detail_of, remove_device, remove, mutate, matches,
}
use mikrotikbandwidthmonitor.Api.Devices.Tenancy.{
  id_of, org_of, member, mutate-KeepsOthers, list_owned,
}
use mikrotikbandwidthmonitor.Api.Tenancy.{HasUniqueIds, KeepsOthers}
use mikrotikbandwidthmonitor.Api.Alerts.{delete, mutate_rules, delete_rule, find_rule}
use mikrotikbandwidthmonitor.Api.Alerts.Tenancy.{rule_id, rule_org, mutate_rules-KeepsOthers}
use mikrotikbandwidthmonitor.RouterOs.Session.{failed}
use mikrotikbandwidthmonitor.Poller.{Outside, poll, poll_devices, poll_device, record_answer, gone}
use mikrotikbandwidthmonitor.Tests.Tables.{list_engine, keep_if, set_if, put, sort}

run : Unit {0}
unfolding keep_if set_if put sort mutate remove list matches find_owned get first
run = tt

abbrev pub device : (id org_id : Uuid) → Device
device id org_id = record {
  id = id;
  org_id = org_id;
  name = codes "r";
  description = none;
  connection_type = rest;
  ip_address = none;
  api_port = 443;
  api_username_enc = none;
  api_password_enc = none;
  snmp_community = none;
  ros_version = none;
  board_name = none;
  model = none;
  mac_address = none;
  status = online;
  last_seen_at = none;
  uptime_seconds = none;
  site_id = none;
  tags = [];
  created_at = 0;
  updated_at = 0;
}

abbrev pub with_devices : List Device → Store list_engine
with_devices ds = record {
  devices = ds;
  device_metrics = [];
  agent_enrollments = [];
  config_snapshots = [];
  pending_commands = [];
  alert_rules = [];
  alert_events = [];
  jobs = [];
}

abbrev before : Store list_engine
before = with_devices (device 2 7 ∷ device 1 8 ∷ [])

abbrev after : Store list_engine
after = with_devices (device 1 8 ∷ [])

abbrev pub eve : SessionUser
eve = record { id = 3; email = codes "e"; name = none; image = none }

before-HasUniqueIds : HasUniqueIds list_engine id_of before.devices
before-HasUniqueIds d e (inl a) (inl b) same = a ∙ sym b
before-HasUniqueIds d e (inl a) (inr (inl b)) same =
    absurd (omega (arith, ap (λ (x : Device). x.id) a, ap (λ (x : Device). x.id) b, same))
before-HasUniqueIds d e (inl a) (inr (inr b)) same = elim b [ ]
before-HasUniqueIds d e (inr (inl a)) (inl b) same =
    absurd (omega (arith, ap (λ (x : Device). x.id) a, ap (λ (x : Device). x.id) b, same))
before-HasUniqueIds d e (inr (inl a)) (inr (inl b)) same = a ∙ sym b
before-HasUniqueIds d e (inr (inl a)) (inr (inr b)) same = elim b [ ]
before-HasUniqueIds d e (inr (inr a)) b same = elim a [ ]

removed : mutate list_engine (member eve 7) before (remove_device 2) ≡ ok after
unfolding run
removed = refl

mutate-KeepsOthers_example : KeepsOthers list_engine org_of 7 before.devices after.devices
mutate-KeepsOthers_example =
    mutate-KeepsOthers list_engine eve 7 before (remove_device 2) before-HasUniqueIds removed

abbrev pub everything : ListInput
everything = record {
  site_id = none;
  status = none;
  tags = none;
  search = none;
  limit = 50;
  cursor = none;
}

abbrev page : Page Device
page = record { items = device 2 7 ∷ []; next_cursor = none }

listed : list list_engine (member eve 7) before everything ≡ ok page
unfolding run
listed = refl

list_owned_example :
    All (λ d. list_engine.Has before.devices d × (d.org_id ≡ 7)) page.items × (1 ≤ 50)
list_owned_example = list_owned list_engine eve 7 before everything listed

got :
    get list_engine (λ t. 0) (member eve 7) before 2
    ≡ ok (detail_of list_engine (λ t. 0) (device 2 7) none)
unfolding run
got = refl

abbrev rule : (id org_id : Uuid) → AlertRule
rule id org_id = record {
  id = id;
  org_id = org_id;
  device_id = none;
  name = codes "cpu";
  metric = codes "cpu_load";
  operator = gt;
  threshold = codes "90";
  channels = [];
  cooldown_minutes = 15;
  enabled = true;
  created_at = 0;
}

abbrev with_rule : Store list_engine
with_rule = record before { alert_rules = rule 1 7 ∷ [] }

one_rule-HasUniqueIds : HasUniqueIds list_engine rule_id with_rule.alert_rules
one_rule-HasUniqueIds r s (inl a) (inl b) same = a ∙ sym b
one_rule-HasUniqueIds r s (inl a) (inr b) same = elim b [ ]
one_rule-HasUniqueIds r s (inr a) b same = elim a [ ]

rule_deleted : mutate_rules list_engine (member eve 7) with_rule (delete 1) ≡ ok before
unfolding run mutate_rules delete_rule find_rule
rule_deleted = refl

mutate_rules-KeepsOthers_example :
    KeepsOthers list_engine rule_org 7 with_rule.alert_rules before.alert_rules
mutate_rules-KeepsOthers_example =
    mutate_rules-KeepsOthers list_engine eve 7 with_rule (delete 1) one_rule-HasUniqueIds
      rule_deleted

-- Routers that do not answer.
abbrev dark : Outside
dark = record {
  decrypt = λ s. some s;
  collect = λ ip port username password. failed (codes "no");
  stringify = λ is. codes "[]";
  now = 100;
}

abbrev by_agent : Device
by_agent = record (device 4 7) { connection_type = agent }

abbrev by_rest : Device
by_rest = record (device 2 7) { ip_address = some (codes "10.0.0.1") }

abbrev two_ways : Store list_engine
two_ways = with_devices (by_rest ∷ by_agent ∷ [])

poll_test : (poll list_engine dark two_ways).devices ≡ gone 100 by_rest ∷ by_agent ∷ []
unfolding run poll poll_devices poll_device record_answer
poll_test = refl
