-- ===== src/Web/Wizard/Forms.antt =====
-- The forms of apps/web/src/components/add-device-wizard: their inputs, what a step shows, and the
-- requests that are made from them.
use mikrotikbandwidthmonitor.Prelude.{
  Bool, true, false, not, ◌&&◌, Option, none, some, List, [], ◌∷◌, ◌++◌, ◌==◌, if◌then◌else◌, keep,
}
use mikrotikbandwidthmonitor.Prelude.Bytes.{Text, text_eq}
use mikrotikbandwidthmonitor.Api.Schema.{Uuid, ConnectionType, agent, rest, binary_api, snmp}
use mikrotikbandwidthmonitor.Api.Config.{includes}
use mikrotikbandwidthmonitor.Api.Devices.{SnmpVersion, filled}
use mikrotikbandwidthmonitor.RouterOs.Session.{ConnectionTestResult}
use mikrotikbandwidthmonitor.Web.Text.{trim, filled_text, without}
use mikrotikbandwidthmonitor.Web.Wizard.State.{
  PortNumber, whole, AuthMethod, by_password, by_key, WizardFormData, WizardState, is_agent,
}

-- What `handleTagKeyDown` makes of the tags.
unfoldable pub add_tag : Text → List Text → List Text
add_tag input tags =
    let tag = without b',' (trim input) in
    if filled_text tag && not (includes tag tags) then tags ++ (tag ∷ []) else tags

abbrev pub with_tags : (List Text → List Text) → WizardFormData → WizardFormData
with_tags f form = record form { tags = f form.tags }

unfoldable pub remove_tag : Text → List Text → List Text
remove_tag tag tags = keep (λ t. not (text_eq t tag)) tags

-- The ports of `OPTIONS`
abbrev pub option_port : ConnectionType → PortNumber
option_port agent = whole 0
option_port rest = whole 443
option_port binary_api = whole 8728
option_port snmp = whole 161

-- The inputs of the forms.
pub data Field : Type 0 where
  name_is description_is ip_is username_is password_is ssh_key_is community_is : Text → Field
  port_is : PortNumber → Field
  auth_is : AuthMethod → Field
  version_is : SnmpVersion → Field
  type_is : ConnectionType → Field
  no_tag : Text → Field

unfoldable pub set_field : Field → WizardFormData → WizardFormData
set_field (name_is s) form = record form { name = s }
set_field (description_is s) form = record form { description = s }
set_field (ip_is s) form = record form { ip_address = s }
set_field (username_is s) form = record form { username = s }
set_field (password_is s) form = record form { password = s }
set_field (ssh_key_is s) form = record form { ssh_key = s }
set_field (community_is s) form = record form { snmp_community = s }
set_field (port_is n) form = record form { port = n }
set_field (auth_is m) form = record form { auth_method = m }
set_field (version_is v) form = record form { snmp_version = v }
set_field (type_is t) form = record form { connection_type = t; port = option_port t }
set_field (no_tag tag) form = with_tags (remove_tag tag) form

abbrev pub is_snmp : ConnectionType → Bool
is_snmp snmp = true
is_snmp _ = false

abbrev pub is_direct : ConnectionType → Bool
is_direct t = not (is_agent t) && not (is_snmp t)

abbrev pub is_by_key : AuthMethod → Bool
is_by_key by_password = false
is_by_key by_key = true

-- Whether a step shows an input.
unfoldable pub shows : WizardState → Field → Bool
shows w (name_is s) = w.step == 1
shows w (description_is s) = w.step == 1
shows w (no_tag tag) = w.step == 1 && includes tag w.form_data.tags
shows w (type_is t) = w.step == 2
shows w (ip_is s) = w.step == 3 && not (is_agent w.form_data.connection_type)
shows w (port_is n) = w.step == 3 && is_direct w.form_data.connection_type
shows w (auth_is m) = w.step == 3 && is_direct w.form_data.connection_type
shows w (username_is s) = w.step == 3 && is_direct w.form_data.connection_type
shows w (password_is s) =
    w.step == 3
    && (is_direct w.form_data.connection_type && not (is_by_key w.form_data.auth_method))
shows w (ssh_key_is s) =
    w.step == 3 && (is_direct w.form_data.connection_type && is_by_key w.form_data.auth_method)
shows w (community_is s) = w.step == 3 && is_snmp w.form_data.connection_type
shows w (version_is v) = w.step == 3 && is_snmp w.form_data.connection_type

-- The call of `devices.add` as it is made, before the API checks it.
pub record AddRequest : Type 0 where
  pub name : Text
  pub connection_type : ConnectionType
  pub ip_address : Option Text
  pub api_port : Option PortNumber
  pub description : Option Text
  pub site_id : Option Uuid
  pub tags : Option (List Text)
  pub username : Option Text
  pub password : Option Text
  pub snmp_community : Option Text
  pub ros_version : Option Text
  pub board_name : Option Text
  pub model : Option Text

-- The call of `devices.testConnection` as it is made
pub record TestRequest : Type 0 where
  pub connection_type : ConnectionType
  pub ip_address : Text
  pub port : Option PortNumber
  pub username : Option Text
  pub password : Option Text
  pub snmp_community : Option Text
  pub snmp_version : Option SnmpVersion

-- What `AgentForm` sends when it appears.
abbrev pub agent_request : WizardFormData → AddRequest
agent_request form = record {
  name = form.name;
  connection_type = agent;
  ip_address = none;
  api_port = none;
  description = some form.description;
  site_id = form.site_id;
  tags = some form.tags;
  username = none;
  password = none;
  snmp_community = none;
  ros_version = none;
  board_name = none;
  model = none;
}

-- `testResult?.…`
abbrev pub of_result :
    (ConnectionTestResult → Option Text) → Option ConnectionTestResult → Option Text
of_result f none = none
of_result f (some r) = f r

-- What `handleFinish` sends.
abbrev pub finish_request : WizardFormData → Option ConnectionTestResult → AddRequest
finish_request form result = record {
  name = form.name;
  connection_type = form.connection_type;
  ip_address = some form.ip_address;
  api_port = some form.port;
  description = some form.description;
  site_id = form.site_id;
  tags = some form.tags;
  username = filled (some form.username);
  password = filled (some form.password);
  snmp_community = filled (some form.snmp_community);
  ros_version = of_result (λ r. r.ros_version) result;
  board_name = of_result (λ r. r.board_name) result;
  model = of_result (λ r. r.model) result;
}

-- What the two forms with a test send.
abbrev direct_test : WizardFormData → TestRequest
direct_test form = record {
  connection_type = form.connection_type;
  ip_address = form.ip_address;
  port = some form.port;
  username = some form.username;
  password = if is_by_key form.auth_method then none else some form.password;
  snmp_community = none;
  snmp_version = none;
}

abbrev snmp_test : WizardFormData → TestRequest
snmp_test form = record {
  connection_type = snmp;
  ip_address = form.ip_address;
  port = none;
  username = none;
  password = none;
  snmp_community = some form.snmp_community;
  snmp_version = some form.snmp_version;
}

unfoldable pub test_request : WizardFormData → TestRequest
test_request form = if is_snmp form.connection_type then snmp_test form else direct_test form
