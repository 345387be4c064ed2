-- ===== src/Web/Wizard/State.antt =====
-- useWizardState of apps/web/src/components/add-device-wizard/use-wizard-state.ts.
use mikrotikbandwidthmonitor.Prelude.{
  ℕ, ◌+◌, ◌-◌, Bool, true, false, ◌&&◌, ◌==◌, Option, none, some, List, [], ltb, if◌then◌else◌,
}
use mikrotikbandwidthmonitor.Prelude.Bytes.{Text, codes}
use mikrotikbandwidthmonitor.Api.Schema.{Uuid, ConnectionType, agent, rest, binary_api, snmp}
use mikrotikbandwidthmonitor.Api.Devices.{SnmpVersion, v2c}
use mikrotikbandwidthmonitor.RouterOs.Session.{ConnectionTestResult}
use mikrotikbandwidthmonitor.Web.Text.{trim, filled_text}

pub data AuthMethod : Type 0 where
  by_password by_key : AuthMethod

-- `Number(e.target.value)`: a whole number that is not negative, or any other (one that is negative, a
-- fraction, or NaN).
pub data PortNumber : Type 0 where
  whole : ℕ → PortNumber
  no_whole : PortNumber

pub record WizardFormData : Type 0 where
  pub name : Text
  pub description : Text
  pub site_id : Option Uuid
  pub tags : List Text
  pub connection_type : ConnectionType
  pub ip_address : Text
  pub port : PortNumber
  pub username : Text
  pub password : Text
  pub ssh_key : Text
  pub auth_method : AuthMethod
  pub snmp_community : Text
  pub snmp_version : SnmpVersion

abbrev pub initial_form : WizardFormData
initial_form = record {
  name = [];
  description = [];
  site_id = none;
  tags = [];
  connection_type = rest;
  ip_address = [];
  port = whole 443;
  username = codes "admin";
  password = [];
  ssh_key = [];
  auth_method = by_password;
  snmp_community = codes "public";
  snmp_version = v2c;
}

pub record WizardState : Type 0 where
  pub step : ℕ
  pub form_data : WizardFormData
  pub test_result : Option ConnectionTestResult
  pub enrollment_token : Option Text
  pub created_device_id : Option Uuid

-- The first state, and that of `reset`
abbrev pub initial_state : WizardState
initial_state = record {
  step = 1;
  form_data = initial_form;
  test_result = none;
  enrollment_token = none;
  created_device_id = none;
}

abbrev pub update_form : (WizardFormData → WizardFormData) → WizardState → WizardState
update_form f w = record w { form_data = f w.form_data }

-- `testResult?.success === true`
abbrev pub succeeded : Option ConnectionTestResult → Bool
succeeded none = false
succeeded (some r) = r.success

abbrev pub is_agent : ConnectionType → Bool
is_agent agent = true
is_agent _ = false

abbrev pub details_done : ConnectionType → Option ConnectionTestResult → Bool
details_done agent r = true
details_done rest r = succeeded r
details_done binary_api r = succeeded r
details_done snmp r = succeeded r

unfoldable pub can_go_next : WizardState → Bool
can_go_next w =
    if w.step == 1
    then filled_text (trim w.form_data.name)
    else if w.step == 2
    then true
    else if w.step == 3
    then details_done w.form_data.connection_type w.test_result
    else w.step == 4

unfoldable pub go_next : WizardState → WizardState
unfolding can_go_next
go_next w = if ltb w.step 4 && can_go_next w then record w { step = w.step + 1 } else w

unfoldable pub go_back : WizardState → WizardState
go_back w = if ltb 1 w.step then record w { step = w.step - 1 } else w
