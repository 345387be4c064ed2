-- ===== src/Inputs.antt =====
-- packages/types/src: the checks of the procedures' inputs, which zod makes before a procedure runs.
-- A type that the records already have (an enum, a uuid, an integer) is not checked again, and lengths
-- are those of ASCII texts.
pub mod Slug
pub mod Wizard
use mikrotikbandwidthmonitor.Prelude.Bytes.{Text}
use mikrotikbandwidthmonitor.Prelude.{
  leb, ◌==◌, length, List, some, none, [], ◌||◌, false, Option, true, ◌∷◌, Bool, ℕ, ◌&&◌,
}
use mikrotikbandwidthmonitor.Api.Devices.{ListInput, AddInput, UpdateInput}
use mikrotikbandwidthmonitor.Api.Alerts.{CreateRuleInput, UpdateRuleInput}
use mikrotikbandwidthmonitor.Api.Schema.{Uuid}
use mikrotikbandwidthmonitor.Api.Orgs.{UpdateOrgInput}

-- `z.string().min(low).max(high)` and `z.number().int().min(low).max(high)`
abbrev pub is_between : (low high n : ℕ) → Bool
is_between low high n = leb low n && leb n high

abbrev pub is_sized : (low high : ℕ) → Text → Bool
is_sized low high s = is_between low high (length s)

-- `….optional()`
abbrev pub optional : {A : Type 0} → (A → Bool) → Option A → Bool
optional check none = true
optional check (some a) = check a

-- `addDeviceSchema`
unfoldable pub add_device_schema : AddInput → Bool
add_device_schema input = is_sized 1 255 input.name && optional (is_between 1 65535) input.api_port

-- `updateDeviceSchema`
unfoldable pub update_device_schema : UpdateInput → Bool
update_device_schema input =
    optional (is_sized 1 255) input.name && optional (is_between 1 65535) input.api_port

-- `deviceListInputSchema`
unfoldable pub device_list_input_schema : ListInput → Bool
device_list_input_schema input = is_between 1 100 input.limit

-- `createAlertRuleSchema`; a threshold is the text of a number, so what `z.number` asks of it holds.
unfoldable pub create_alert_rule_schema : CreateRuleInput → Bool
create_alert_rule_schema input =
    leb 1 (length input.name) && is_between 1 1440 input.cooldown_minutes

-- `updateAlertRuleSchema`
unfoldable pub update_alert_rule_schema : UpdateRuleInput → Bool
update_alert_rule_schema input =
    optional (λ (s : Text). leb 1 (length s)) input.name
    && optional (is_between 1 1440) input.cooldown_minutes

-- `updateOrgSchema`
unfoldable pub update_org_schema : UpdateOrgInput → Bool
update_org_schema input = optional (is_sized 1 255) input.name

-- `snapshotListSchema`, of its limit
unfoldable pub snapshot_list_schema : (limit : ℕ) → Bool
snapshot_list_schema limit = is_between 1 50 limit

pub data CommandType : Type 0 where
  firewall_rule_add firewall_rule_remove ip_address_add ip_address_remove : CommandType
  system_script_run : CommandType

-- `configPushSchema`; the payload is JSON text.
pub record ConfigPush : Type 0 where
  pub device_id : Uuid
  pub command_type : CommandType
  pub payload : Text
  pub safe_mode : Bool
  pub safe_mode_ttl : ℕ

unfoldable pub config_push_schema : ConfigPush → Bool
config_push_schema input = is_between 10 120 input.safe_mode_ttl

-- `createApiKeySchema`
pub record ApiKeyInput : Type 0 where
  pub name : Text
  pub scopes : List Text
  pub expires_at : Option ℕ

unfoldable pub create_api_key_schema : ApiKeyInput → Bool
create_api_key_schema input = is_sized 1 255 input.name

-- `loginSchema`, `signupSchema` and `inviteMemberSchema`; `is_email` is zod's pattern.
unfoldable pub login_schema : (Text → Bool) → (email password : Text) → Bool
login_schema is_email email password = is_email email && leb 8 (length password)

unfoldable pub signup_schema : (Text → Bool) → (email password name : Text) → Bool
signup_schema is_email email password name =
    is_email email && (leb 8 (length password) && leb 1 (length name))

unfoldable pub invite_member_schema : (Text → Bool) → (email : Text) → Bool
invite_member_schema is_email email = is_email email

-- [a-z0-9]
abbrev pub is_slug_char : ℕ → Bool
is_slug_char c = (leb b'a' c && leb c b'z') || (leb b'0' c && leb c b'9')

-- /^[a-z0-9]+(?:-[a-z0-9]+)*$/ on the text behind the part that was read; `begun` is whether the
-- segment that is read has a character already.
unfoldable pub is_slug_from : (begun : Bool) → Text → Bool
is_slug_from begun [] = begun
is_slug_from begun (c ∷ s) = elim (is_slug_char c) [
  | true ↦ is_slug_from true s
  | false ↦ elim (c == b'-' && begun) [ true ↦ is_slug_from false s | false ↦ false ]
]

-- `createOrgSchema`
unfoldable pub create_org_schema : (name slug : Text) → Bool
unfolding is_slug_from
create_org_schema name slug =
    is_sized 1 255 name && (is_sized 1 100 slug && is_slug_from false slug)
