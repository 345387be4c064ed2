-- ===== src/Api/Devices/Input.antt =====
-- The inputs of apps/api/src/trpc/routers/devices.ts, the rows that it writes, and what
-- `testConnection` runs.
use mikrotikbandwidthmonitor.Prelude.{
  Result, ℕ, ◌*◌, Bool, true, false, ◌&&◌, Option, none, some, List, [], ◌∷◌, ◌++◌, ◌==◌, ltb, take,
  length, if◌then◌else◌,
}
use mikrotikbandwidthmonitor.Prelude.Bytes.{Text, codes}
use mikrotikbandwidthmonitor.Api.Database.{Engine}
use mikrotikbandwidthmonitor.Api.Schema.{
  Uuid, ConnectionType, agent, rest, binary_api, snmp, DeviceStatus, online, offline, warning,
  unreachable, Device, AgentEnrollment, Store,
}
use mikrotikbandwidthmonitor.Api.Context.{ApiError}

abbrev pub AnswerOf : Engine → Type 0 → Type 0
AnswerOf engine A = Result ApiError (A × Store engine)

abbrev pub status_eq : DeviceStatus → DeviceStatus → Bool
status_eq online online = true
status_eq offline offline = true
status_eq warning warning = true
status_eq unreachable unreachable = true
status_eq _ _ = false

abbrev pub is_some_uuid : Uuid → Option Uuid → Bool
is_some_uuid id none = false
is_some_uuid id (some other) = id == other

-- `and(eq(devices.id, id), eq(devices.orgId, org.id))`
abbrev pub owned : Uuid → Uuid → Device → Bool
owned org id d = d.id == id && d.org_id == org

-- `deviceListInputSchema`
pub record ListInput : Type 0 where
  pub site_id : Option Uuid
  pub status : Option DeviceStatus
  pub tags : Option (List Text)
  pub search : Option Text
  pub limit : ℕ
  pub cursor : Option Uuid

pub record Page (A : Type 0) : Type 0 where
  pub items : List A
  pub next_cursor : Option Uuid

-- `addDeviceSchema`, less what no column holds (sshKey, authMethod, snmpVersion)
pub record AddInput : Type 0 where
  pub name : Text
  pub connection_type : ConnectionType
  pub ip_address : Option Text
  pub api_port : Option ℕ
  pub description : Option Text
  pub site_id : Option Uuid
  pub tags : Option (List Text)
  pub username : Option Text
  pub password : Option Text
  pub snmp_community : Option Text
  pub ros_version : Option Text
  pub board_name : Option Text
  pub model : Option Text

-- `updateDeviceSchema`, the fields that are columns
pub record UpdateInput : Type 0 where
  pub name : Option Text
  pub connection_type : Option ConnectionType
  pub ip_address : Option Text
  pub api_port : Option ℕ
  pub description : Option Text
  pub site_id : Option Uuid
  pub tags : Option (List Text)
  pub snmp_community : Option Text
  pub ros_version : Option Text
  pub board_name : Option Text
  pub model : Option Text

abbrev pub or_default {ℓ} : {A : Type ℓ} → Option A → A → A
or_default none d = d
or_default (some a) d = a

abbrev pub or_option {ℓ} : {A : Type ℓ} → Option A → Option A → Option A
or_option none d = d
or_option (some a) d = some a

-- `if (s) …`: an empty text is left out.
abbrev pub filled : Option Text → Option Text
filled none = none
filled (some []) = none
filled (some (c ∷ s)) = some (c ∷ s)

abbrev pub map_option : (Text → Text) → Option Text → Option Text
map_option f none = none
map_option f (some s) = some (f s)

abbrev pub default_port : ConnectionType → ℕ
default_port rest = 443
default_port _ = 8728

-- The row of `add`, with the defaults of the columns that it leaves out.
abbrev pub new_device : (Text → Text) → Uuid → ℕ → Uuid → AddInput → Device
new_device seal id now org input = record {
  id = id;
  org_id = org;
  name = input.name;
  description = input.description;
  connection_type = input.connection_type;
  ip_address = input.ip_address;
  api_port = or_default input.api_port (default_port input.connection_type);
  api_username_enc = map_option seal (filled input.username);
  api_password_enc = map_option seal (filled input.password);
  snmp_community = filled input.snmp_community;
  ros_version = input.ros_version;
  board_name = input.board_name;
  model = input.model;
  mac_address = none;
  status = offline;
  last_seen_at = none;
  uptime_seconds = none;
  site_id = input.site_id;
  tags = or_default input.tags [];
  created_at = now;
  updated_at = now;
}

-- `.set({ ...input.data, updatedAt: new Date() })`; a field that is `undefined` is left as it is.
abbrev pub updated_device : ℕ → UpdateInput → Device → Device
updated_device now input d = record d {
  name = or_default input.name d.name;
  connection_type = or_default input.connection_type d.connection_type;
  ip_address = or_option input.ip_address d.ip_address;
  api_port = or_default input.api_port d.api_port;
  description = or_option input.description d.description;
  site_id = or_option input.site_id d.site_id;
  tags = or_default input.tags d.tags;
  snmp_community = or_option input.snmp_community d.snmp_community;
  ros_version = or_option input.ros_version d.ros_version;
  board_name = or_option input.board_name d.board_name;
  model = or_option input.model d.model;
  updated_at = now;
}

-- The row of `generateEnrollToken`, with the defaults of the columns that it leaves out.
abbrev pub new_enrollment : Uuid → Text → ℕ → Uuid → AgentEnrollment
new_enrollment row_id token now device_id = record {
  id = row_id;
  device_id = device_id;
  enroll_token = token;
  token_used = false;
  agent_version = none;
  client_cert_fingerprint = none;
  last_connected_at = none;
  connected_ip = none;
  created_at = now;
}

-- `timeRange`
pub data TimeRange : Type 0 where
  pt1h pt6h pt12h p1d p7d p30d : TimeRange

abbrev pub range_length : TimeRange → ℕ
range_length pt1h = 3600000
range_length pt6h = 6 * 3600000
range_length pt12h = 12 * 3600000
range_length p1d = 24 * 3600000
range_length p7d = 7 * 24 * 3600000
range_length p30d = 30 * 24 * 3600000

-- `snmpVersion`
pub data SnmpVersion : Type 0 where
  v2c v3 : SnmpVersion

-- `testConnectionSchema`
pub record TestInput : Type 0 where
  pub connection_type : ConnectionType
  pub ip_address : Text
  pub port : Option ℕ
  pub username : Option Text
  pub password : Option Text
  pub snmp_community : Option Text
  pub snmp_version : Option SnmpVersion

-- The test that `testConnection` runs.
pub data Probe : Type 0 where
  rest_probe : (ip : Text) (port : ℕ) (username password : Text) → Probe
  binary_probe : (ip : Text) (port : ℕ) (username password : Text) → Probe
  snmp_probe : (ip community : Text) (version : SnmpVersion) → Probe
  no_probe : (error : Text) → Probe

unfoldable pub test_connection : TestInput → Probe
test_connection input = elim (input.connection_type) [
  | rest ↦
      rest_probe input.ip_address (or_default input.port 443)
        (or_default input.username (codes "admin")) (or_default input.password [])
  | binary_api ↦
      binary_probe input.ip_address (or_default input.port 8728)
        (or_default input.username (codes "admin")) (or_default input.password [])
  | snmp ↦
      snmp_probe input.ip_address (or_default input.snmp_community (codes "public"))
        (or_default input.snmp_version v2c)
  | agent ↦ no_probe (codes "Agent mode does not support connection testing")
]

-- The answer of `generateEnrollToken`.
pub record EnrollToken : Type 0 where
  pub token : Text
  pub install_command : Text

-- `public_url` is the setting PUBLIC_URL.
abbrev pub enroll_token : Option Text → Text → EnrollToken
enroll_token public_url token = record {
  token = token;
  install_command =
      codes "curl -sSL "
      ++ (or_default public_url (codes "https://mkmgmt.computecloud.net")
          ++ (codes "/install | sh -s -- --token " ++ token));
}

-- The answer of `checkEnrollment`; the fields besides `enrolled` are left out where it is false.
pub record EnrollmentStatus : Type 0 where
  pub enrolled : Bool
  pub agent_version : Option Text
  pub connected_ip : Option Text
  pub last_connected_at : Option ℕ

abbrev pub enrollment_status : Option AgentEnrollment → EnrollmentStatus
enrollment_status none = record {
  enrolled = false;
  agent_version = none;
  connected_ip = none;
  last_connected_at = none;
}
enrollment_status (some e) = record {
  enrolled = true;
  agent_version = e.agent_version;
  connected_ip = e.connected_ip;
  last_connected_at = e.last_connected_at;
}

-- `if (cursor) …`: only ids behind the cursor
abbrev pub behind : Option Uuid → Uuid → Bool
behind none id = true
behind (some cursor) id = ltb cursor id

-- `items[items.length - 1]?.id`
abbrev pub last_of : {A : Type 0} → (A → Uuid) → List A → Option Uuid
last_of id_of [] = none
last_of id_of (x ∷ []) = some (id_of x)
last_of id_of (x ∷ y ∷ xs) = last_of id_of (y ∷ xs)

-- A page from the rows of a query that asked for one more than the limit.
abbrev pub page_of : {A : Type 0} → (A → Uuid) → ℕ → List A → Page A
page_of id_of limit rows =
    let items = take limit rows in
    if ltb limit (length rows)
    then record { items = items; next_cursor = last_of id_of items }
    else record { items = rows; next_cursor = none }
