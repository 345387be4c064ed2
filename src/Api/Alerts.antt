-- ===== src/Api/Alerts.antt =====
-- apps/api/src/trpc/routers/alerts.ts: alert rules and the events that they fired.
pub mod Tenancy
use mikrotikbandwidthmonitor.Prelude.{
  Result, ok, err, ◌>>=◌, ◌>>◌, ℕ, Bool, true, false, ◌&&◌, Option, none, some, List, ◌==◌, take,
}
use mikrotikbandwidthmonitor.Prelude.Bytes.{Text}
use mikrotikbandwidthmonitor.Api.Database.{Engine, first}
use mikrotikbandwidthmonitor.Api.Schema.{Uuid, AlertOperator, AlertRule, AlertEvent, Store}
use mikrotikbandwidthmonitor.Api.Context.{
  ApiError, not_found, internal, database, Context, protected_procedure,
}
use mikrotikbandwidthmonitor.Api.Devices.{AnswerOf, find_owned, is_some_uuid, or_default, or_option}

-- `createAlertRuleSchema`; the threshold is the text that `String` gives.
pub record CreateRuleInput : Type 0 where
  pub device_id : Option Uuid
  pub name : Text
  pub metric : Text
  pub operator : AlertOperator
  pub threshold : Text
  pub channels : List Text
  pub cooldown_minutes : ℕ
  pub enabled : Bool

-- `updateAlertRuleSchema`
pub record UpdateRuleInput : Type 0 where
  pub device_id : Option Uuid
  pub name : Option Text
  pub metric : Option Text
  pub operator : Option AlertOperator
  pub threshold : Option Text
  pub channels : Option (List Text)
  pub cooldown_minutes : Option ℕ
  pub enabled : Option Bool

abbrev pub new_rule : Uuid → ℕ → Uuid → CreateRuleInput → AlertRule
new_rule id now org input = record {
  id = id;
  org_id = org;
  device_id = input.device_id;
  name = input.name;
  metric = input.metric;
  operator = input.operator;
  threshold = input.threshold;
  channels = input.channels;
  cooldown_minutes = input.cooldown_minutes;
  enabled = input.enabled;
  created_at = now;
}

-- The patch of `updateRule`: only what the caller supplied.
abbrev pub patched_rule : UpdateRuleInput → AlertRule → AlertRule
patched_rule input r = record r {
  device_id = or_option input.device_id r.device_id;
  name = or_default input.name r.name;
  metric = or_default input.metric r.metric;
  operator = or_default input.operator r.operator;
  threshold = or_default input.threshold r.threshold;
  channels = or_default input.channels r.channels;
  cooldown_minutes = or_default input.cooldown_minutes r.cooldown_minutes;
  enabled = or_default input.enabled r.enabled;
}

abbrev pub is_absent : {A : Type 0} → Option A → Bool
is_absent none = true
is_absent (some a) = false

-- A patch with no field, for which `set` of drizzle throws `No values to set`
unfoldable pub is_empty_patch : UpdateRuleInput → Bool
is_empty_patch input =
    (is_absent input.device_id && is_absent input.name)
    && ((is_absent input.metric && is_absent input.operator)
        && ((is_absent input.threshold && is_absent input.channels)
            && (is_absent input.cooldown_minutes && is_absent input.enabled)))

abbrev pub owned_rule : Uuid → Uuid → AlertRule → Bool
owned_rule org id r = r.id == id && r.org_id == org

abbrev pub bool_eq : Bool → Bool → Bool
bool_eq true b = b
bool_eq false true = false
bool_eq false false = true

abbrev pub rule_of_device : Option Uuid → AlertRule → Bool
rule_of_device none r = true
rule_of_device (some id) r = is_some_uuid id r.device_id

abbrev pub rule_enabled : Option Bool → AlertRule → Bool
rule_enabled none r = true
rule_enabled (some b) r = bool_eq r.enabled b

abbrev pub given_uuid : Option Uuid → Uuid → Bool
given_uuid none id = true
given_uuid (some other) id = id == other

-- `isNotNull(resolvedAt)` or `isNull(resolvedAt)`
abbrev pub by_resolved : Option Bool → Option ℕ → Bool
by_resolved none at = true
by_resolved (some true) none = false
by_resolved (some true) (some t) = true
by_resolved (some false) none = true
by_resolved (some false) (some t) = false

module _ (engine : Engine) where
  unfoldable pub list_rules :
      Context → Store engine → Option Uuid → Option Bool → Result ApiError (List AlertRule)
  list_rules ctx store device_id enabled = protected_procedure ctx (λ user org. ok (
      engine.order_asc (λ r. r.created_at)
        (engine.select
          (λ r. r.org_id == org && (rule_of_device device_id r && rule_enabled enabled r))
          store.alert_rules)))

  -- The check of `createRule`, if a device is named.
  unfoldable pub check_device : Store engine → Uuid → Option Uuid → Result ApiError (Unit {0})
  unfolding find_owned
  check_device store org none = ok tt
  check_device store org (some id) = find_owned engine store org id >>= λ device. ok tt

  unfoldable pub create_rule :
      Uuid → ℕ → Context → Store engine → CreateRuleInput → AnswerOf engine AlertRule
  unfolding check_device
  create_rule id now ctx store input = protected_procedure ctx (λ user org.
      check_device store org input.device_id
      >> elim (engine.insert (new_rule id now org input) store.alert_rules) [
        | none ↦ err database
        | some rules ↦ ok (new_rule id now org input, record store { alert_rules = rules })
      ])

  unfoldable pub find_rule : Store engine → Uuid → Uuid → Result ApiError AlertRule
  find_rule store org id = elim (first (engine.select (owned_rule org id) store.alert_rules)) [
    | none ↦ err not_found
    | some r ↦ ok r
  ]

  -- The statement of `updateRule`, and whether the patch is empty
  abbrev pub set_rule :
      Store engine → Uuid → UpdateRuleInput → Bool → AnswerOf engine (Option AlertRule)
  set_rule store id input true = err internal
  set_rule store id input false =
      elim (engine.update (λ r. r.id == id) (patched_rule input) store.alert_rules) [
        | none ↦ err database
        | some rules ↦
            ok (first (engine.select (λ r. r.id == id) rules), record store { alert_rules = rules })
      ]

  -- `updateRule`; the answer is the row that `returning` gives, found by its id.
  unfoldable pub update_rule :
      Context → Store engine → Uuid → UpdateRuleInput → AnswerOf engine (Option AlertRule)
  unfolding find_rule
  update_rule ctx store id input = protected_procedure ctx (λ user org.
      find_rule store org id >>= λ existing. set_rule store id input (is_empty_patch input))

  -- `deleteRule`, with the events that the foreign key deletes
  unfoldable pub delete_rule : Context → Store engine → Uuid → AnswerOf engine Uuid
  unfolding find_rule
  delete_rule ctx store id = protected_procedure ctx (λ user org.
      find_rule store org id >>= λ deleted. ok (
        deleted.id,
        record store {
          alert_rules = engine.delete (owned_rule org id) store.alert_rules;
          alert_events = engine.delete (λ e. e.rule_id == deleted.id) store.alert_events;
        },
      ))

  unfoldable pub list_events :
      Context
      → Store engine
      → (rule_id device_id : Option Uuid) → (resolved : Option Bool) → ℕ
      → Result ApiError (List AlertEvent)
  list_events ctx store rule_id device_id resolved limit = protected_procedure ctx (λ user org. ok (
      take limit (
        engine.order_desc (λ e. e.fired_at)
          (engine.select
            (λ e.
              e.org_id == org
              && (given_uuid rule_id e.rule_id
                  && (given_uuid device_id e.device_id && by_resolved resolved e.resolved_at)))
            store.alert_events))))

  -- The mutations of the rules, as one request each.
  pub data RuleMutation : Type 0 where
    create : Uuid → ℕ → CreateRuleInput → RuleMutation
    update : Uuid → UpdateRuleInput → RuleMutation
    delete : Uuid → RuleMutation

  abbrev rules_of : {A : Type 0} → AnswerOf engine A → Result ApiError (Store engine)
  rules_of (ok (a, store)) = ok store
  rules_of (err e) = err e

  unfoldable pub mutate_rules :
      Context → Store engine → RuleMutation → Result ApiError (Store engine)
  mutate_rules ctx store (create id now input) = rules_of (create_rule id now ctx store input)
  mutate_rules ctx store (update id input) = rules_of (update_rule ctx store id input)
  mutate_rules ctx store (delete id) = rules_of (delete_rule ctx store id)
