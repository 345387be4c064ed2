-- ===== src/Inputs/Wizard.antt =====
-- The requests of the dialog of apps/web/src/components/add-device-wizard before addDeviceSchema of
-- packages/types/src/devices.ts.
use mikrotikbandwidthmonitor.Web.Wizard.State.{PortNumber, whole, no_whole}
use mikrotikbandwidthmonitor.Web.Wizard.Forms.{AddRequest}
use mikrotikbandwidthmonitor.Web.Wizard.Reachable.{Reach-IsSound}
use mikrotikbandwidthmonitor.Web.Wizard.Soundness.{IsRequestSound}
use mikrotikbandwidthmonitor.Web.Wizard.{Dialog, Reach}
use mikrotikbandwidthmonitor.Web.Text.{trim, filled_text}
use mikrotikbandwidthmonitor.Prelude.Bytes.{Text}
use mikrotikbandwidthmonitor.Prelude.{
  leb, length, All, arith, ◌&&◌, ◌≡◌, ◌≤◌, ◌∷◌, true, [], Bool, All-widen, ℕ, some, refl, Option,
  false, none,
}
use mikrotikbandwidthmonitor.Api.Devices.{AddInput}
use mikrotikbandwidthmonitor.Inputs.{add_device_schema}

length-filled : (s : Text) → filled_text (trim s) ≡ true → 1 ≤ length s
unfolding trim
length-filled [] h = cc
length-filled (c ∷ s) h = omega arith

-- The port as `z.number().int()` takes it; `none` refuses it.
abbrev pub parsed_port : Option PortNumber → Option (Option ℕ)
parsed_port none = some none
parsed_port (some (whole n)) = some (some n)
parsed_port (some no_whole) = none

abbrev with_port : AddRequest → Option ℕ → AddInput
with_port r port = record {
  name = r.name;
  connection_type = r.connection_type;
  ip_address = r.ip_address;
  api_port = port;
  description = r.description;
  site_id = r.site_id;
  tags = r.tags;
  username = r.username;
  password = r.password;
  snmp_community = r.snmp_community;
  ros_version = r.ros_version;
  board_name = r.board_name;
  model = r.model;
}

-- Whether `addDeviceSchema` takes a request of the dialog
abbrev pub accepted : AddRequest → Bool
accepted r = elim (parsed_port r.api_port) [
  | none ↦ false
  | some port ↦ add_device_schema (with_port r port)
]

-- What can still be refused of a request.
abbrev pub is_port : Option PortNumber → Bool
is_port none = true
is_port (some (whole n)) = leb 1 n && leb n 65535
is_port (some no_whole) = false

abbrev pub within : AddRequest → Bool
within r = leb (length r.name) 255 && is_port r.api_port

-- A request that is sent meets the rest of the schema.
abbrev pub IsChecked : AddRequest → Type 0
IsChecked r = (accepted r ≡ within r) × (1 ≤ length r.name)

accepted-within :
    (r : AddRequest) (port : Option PortNumber)
    → r.api_port ≡ port
    → 1 ≤ length r.name
    → accepted r ≡ within r
unfolding add_device_schema
accepted-within r none e long = ground arith
accepted-within r (some (whole n)) e long = ground arith
accepted-within r (some no_whole) e long = ground arith

checked : (r : AddRequest) → IsRequestSound r → IsChecked r
checked r (named, address) =
    let long = length-filled r.name named in (accepted-within r r.api_port refl long, long)

-- Of the requests that the dialog sends, whatever was done in it, the API refuses exactly those
-- with a name of more than 255 characters or a port that is no whole number from 1 to 65535, which
-- the dialog does not check; a name that is missing is never sent.
pub Reach-add_device_schema : {d : Dialog} → Reach d → All IsChecked d.requests
Reach-add_device_schema {d} r =
    let (state, open_or_new, fits, sound) = Reach-IsSound r in
    All-widen IsRequestSound IsChecked checked d.requests sound
