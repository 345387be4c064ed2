-- ===== src/Web/Alerts.antt =====
-- The page of apps/web/src/app/(dashboard)/alerts/page.tsx: the state that it and its dialog keep,
-- and what their handlers do. The dialog stays mounted while it is closed, so its form is kept.
pub mod Channels
pub mod Reachable
use mikrotikbandwidthmonitor.Web.Text.{filled_text}
use mikrotikbandwidthmonitor.Prelude.{
  if◌then◌else◌, get_elem?, keep, not, ℕ, true, ◌&&◌, Option, Bool, ◌≡◌, ◌||◌, ◌++◌, ◌∷◌, false,
  List, none, some, ◌+◌, [],
}
use mikrotikbandwidthmonitor.Api.Config.{includes}
use mikrotikbandwidthmonitor.Api.Schema.{Uuid, AlertOperator, gt, lt, gte, lte, eq, AlertRule}
use mikrotikbandwidthmonitor.Prelude.Bytes.{Text, codes, text_eq}
use mikrotikbandwidthmonitor.Prelude.Decimal.{show_nat}
use mikrotikbandwidthmonitor.RouterOs.Uptime.{Number, parse_int}

abbrev pub operator_value : AlertOperator → Text
operator_value gt = codes "gt"
operator_value gte = codes "gte"
operator_value lt = codes "lt"
operator_value lte = codes "lte"
operator_value eq = codes "eq"

-- The values of `CHANNELS`
abbrev pub channel_values : List Text
channel_values = codes "email" ∷ codes "webhook" ∷ codes "slack" ∷ []

pub record CreateRuleFormState : Type 0 where
  pub name : Text
  pub metric : Text
  pub operator : AlertOperator
  pub threshold : Text
  pub channels : List Text
  pub cooldown_minutes : Text

-- `INITIAL_FORM`
abbrev pub initial_rule : CreateRuleFormState
initial_rule = record {
  name = [];
  metric = codes "cpu";
  operator = gt;
  threshold = codes "80";
  channels = codes "email" ∷ [];
  cooldown_minutes = codes "15";
}

-- A call of `createRule`: `threshold` is the text that `parseFloat` reads, and `enabled` is true.
pub record NewRule : Type 0 where
  pub name : Text
  pub metric : Text
  pub operator : AlertOperator
  pub threshold : Text
  pub channels : List Text
  pub cooldown_minutes : Number

-- A call of `toggleRule` or `deleteRule`
pub data RuleChange : Type 0 where
  enable : (id : Uuid) (enabled : Bool) → RuleChange
  delete : (id : Uuid) → RuleChange

-- `AlertsPage` and the `CreateRuleDialog` on it: `pending` and `error` are those of the mutation,
-- `created` and `changes` what was sent, the last first, and `invalidated` counts how often the
-- list was called out of date. `items` is the answer of the query, if there is one.
pub record AlertsPage : Type 0 where
  pub create_open : Bool
  pub form : CreateRuleFormState
  pub pending : Bool
  pub error : Option Text
  pub items : Option (List AlertRule)
  pub created : List NewRule
  pub changes : List RuleChange
  pub invalidated : ℕ

abbrev pub initial_page : AlertsPage
initial_page = record {
  create_open = false;
  form = initial_rule;
  pending = false;
  error = none;
  items = none;
  created = [];
  changes = [];
  invalidated = 0;
}

-- `data?.items ?? []`
abbrev pub rules : Option (List AlertRule) → List AlertRule
rules none = []
rules (some rs) = rs

-- `toggleChannel`
unfoldable pub toggle_channel : Text → List Text → List Text
unfolding includes
toggle_channel ch channels =
    if includes ch channels then keep (λ c. not (text_eq c ch)) channels else channels ++ (ch ∷ [])

pub data RuleField : Type 0 where
  name_is metric_is threshold_is cooldown_is : Text → RuleField
  operator_is : AlertOperator → RuleField

abbrev pub set_rule_field : RuleField → CreateRuleFormState → CreateRuleFormState
set_rule_field (name_is s) f = record f { name = s }
set_rule_field (metric_is s) f = record f { metric = s }
set_rule_field (threshold_is s) f = record f { threshold = s }
set_rule_field (cooldown_is s) f = record f { cooldown_minutes = s }
set_rule_field (operator_is o) f = record f { operator = o }

abbrev pub rule_request : CreateRuleFormState → NewRule
rule_request f = record {
  name = f.name;
  metric = f.metric;
  operator = f.operator;
  threshold = f.threshold;
  channels = f.channels;
  cooldown_minutes = parse_int f.cooldown_minutes;
}

abbrev pub none_selected : List Text → Bool
none_selected [] = true
none_selected (c ∷ cs) = false

-- `handleSubmit`
unfoldable pub handle_submit : AlertsPage → AlertsPage
handle_submit page = if none_selected page.form.channels then page else record page {
  pending = true;
  error = none;
  created = rule_request page.form ∷ page.created;
}

-- `onSuccess` of `createRule`, and of the other two mutations
unfoldable pub on_created : AlertsPage → AlertsPage
on_created page = record page {
  create_open = false;
  form = initial_rule;
  pending = false;
  invalidated = page.invalidated + 1;
}

unfoldable pub on_changed : AlertsPage → AlertsPage
on_changed page = record page { invalidated = page.invalidated + 1 }

unfoldable pub toggle_rule : AlertRule → AlertsPage → AlertsPage
toggle_rule rule page = record page { changes = enable rule.id (not rule.enabled) ∷ page.changes }

unfoldable pub delete_rule_of : AlertRule → AlertsPage → AlertsPage
delete_rule_of rule page = record page { changes = delete rule.id ∷ page.changes }

pub data PageEvent : Type 0 where
  press_create press_close press_submit : PageEvent
  edit_rule : RuleField → PageEvent
  press_channel : (n : ℕ) → PageEvent
  press_toggle press_delete : (n : ℕ) → PageEvent
  -- the answers
  rules_came : List AlertRule → PageEvent
  rule_created change_made : PageEvent
  rule_refused : (message : Text) → PageEvent

abbrev pub on_row :
    Option AlertRule → (AlertRule → AlertsPage → AlertsPage) → AlertsPage → Option AlertsPage
on_row none f page = none
on_row (some rule) f page = some (f rule page)

-- The channels with a button; a closed dialog renders nothing.
abbrev pub channel_buttons : (shown : Bool) → List Text
channel_buttons shown = if shown then channel_values else []

abbrev pub on_channel : Option Text → AlertsPage → Option AlertsPage
on_channel none page = none
on_channel (some ch) page =
    some
      (record page { form = record page.form { channels = toggle_channel ch page.form.channels } })

abbrev pub offered : Bool → AlertsPage → Option AlertsPage
offered true page = some page
offered false page = none

-- The inputs with `required` are filled.
abbrev pub is_filled_in : CreateRuleFormState → Bool
is_filled_in f = filled_text f.name && (filled_text f.metric && filled_text f.threshold)

-- One event; `none` where the page does not offer it. `in_range low high s` is what the browser
-- checks of the text of a number input with these bounds before it submits a form.
unfoldable pub page_event :
    (in_range : Option ℕ → Option ℕ → Text → Bool) → AlertsPage → PageEvent → Option AlertsPage
unfolding handle_submit on_created on_changed toggle_rule delete_rule_of
page_event in_range page press_create = some (record page { create_open = true })
page_event in_range page press_close =
    offered page.create_open (record page { create_open = false })
page_event in_range page (edit_rule field) =
    offered page.create_open (record page { form = set_rule_field field page.form })
page_event in_range page (press_channel n) =
    on_channel (get_elem? (channel_buttons page.create_open) n) page
page_event in_range page press_submit =
    offered
      (page.create_open
        && (not (page.pending || none_selected page.form.channels)
            && (is_filled_in page.form
                && (in_range none none page.form.threshold
                    && in_range (some 1) (some 1440) page.form.cooldown_minutes))))
      (handle_submit page)
page_event in_range page (press_toggle n) = on_row (get_elem? (rules page.items) n) toggle_rule page
page_event in_range page (press_delete n) =
    on_row (get_elem? (rules page.items) n) delete_rule_of page
page_event in_range page (rules_came rs) = some (record page { items = some rs })
page_event in_range page rule_created = offered page.pending (on_created page)
page_event in_range page change_made = some (on_changed page)
page_event in_range page (rule_refused message) =
    offered page.pending (record page { pending = false; error = some message })

-- The pages that some events lead to.
pub data ReachPage (in_range : Option ℕ → Option ℕ → Text → Bool) : AlertsPage → Type 0 where
  loaded : ReachPage in_range initial_page
  then_event :
      {page page' : AlertsPage}
      → ReachPage in_range page
      → (e : PageEvent) → page_event in_range page e ≡ some page'
      → ReachPage in_range page'

-- The row of a rule: its name, its condition and whether it is active. A bullet is three bytes.
pub record RuleRow : Type 0 where
  pub title : Text
  pub condition : Text
  pub badge : Text
  pub toggle_label : Text

unfoldable pub rule_row : AlertRule → RuleRow
unfolding show_nat
rule_row rule = record {
  title = rule.name;
  condition =
      rule.metric
      ++ (32
          ∷ (operator_value rule.operator
              ++ (32
                  ∷ (rule.threshold
                      ++ (32
                          ∷ 0xe2
                          ∷ 0x80
                          ∷ 0xa2
                          ∷ (codes " cooldown "
                              ++ (show_nat rule.cooldown_minutes ++ codes "m")))))));
  badge = if rule.enabled then codes "Active" else codes "Paused";
  toggle_label = if rule.enabled then codes "Disable rule" else codes "Enable rule";
}
