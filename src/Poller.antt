-- ===== src/Poller.antt =====
-- apps/api/src/lib/device-poller.ts: one round of polling. What `collectRouterMetrics` answers, what
-- `decryptCredential` gives (`none` where it throws) and the clock are arguments.
pub mod Laws
use Prim.Native.String.{String}
use mikrotikbandwidthmonitor.Prelude.{
  ℕ, zero, suc, Bool, true, false, not, ◌||◌, ◌&&◌, Option, none, some, List, [], ◌∷◌, ◌==◌,
  if◌then◌else◌,
}
use mikrotikbandwidthmonitor.Prelude.Bytes.{Text, codes}
use mikrotikbandwidthmonitor.RouterOs.Uptime.{Number}
use mikrotikbandwidthmonitor.RouterOs.Session.{RouterOsMetrics, Interface}
use mikrotikbandwidthmonitor.Api.Database.{Engine}
use mikrotikbandwidthmonitor.Api.Schema.{
  ConnectionType, agent, rest, binary_api, snmp, online, offline, Device, DeviceMetric, Store,
}
use mikrotikbandwidthmonitor.Api.Devices.{or_option, or_default, status_eq}

-- What the poller does not do itself.
pub record Outside : Type 0 where
  pub decrypt : Text → Option Text
  pub collect : (ip : Text) (port : ℕ) (username password : Text) → RouterOsMetrics
  pub stringify : List Interface → Text
  pub now : ℕ

-- `device.apiUsernameEnc ? decryptCredential(device.apiUsernameEnc) : fallback`
abbrev pub credential : (Text → Option Text) → Option Text → Text → Option Text
credential decrypt none fallback = some fallback
credential decrypt (some []) fallback = some fallback
credential decrypt (some (c ∷ s)) fallback = decrypt (c ∷ s)

-- `metrics.uptime ? … : …`
abbrev pub truthy : Option ℕ → Option ℕ
truthy none = none
truthy (some zero) = none
truthy (some (suc n)) = some (suc n)

-- The update of a device that answered.
abbrev pub seen : ℕ → RouterOsMetrics → Device → Device → Device
seen now m device d = record d {
  status = online;
  last_seen_at = some now;
  ros_version = or_option m.ros_version device.ros_version;
  board_name = or_option m.board_name device.board_name;
  model = or_option m.model device.model;
  uptime_seconds = or_option (truthy m.uptime) device.uptime_seconds;
  updated_at = now;
}

-- The update of a device that went offline.
abbrev pub gone : ℕ → Device → Device
gone now d = record d { status = offline; updated_at = now }

abbrev pub is_some : Option Number → Bool
is_some none = false
is_some (some n) = true

abbrev pub snapshot_of : Outside → Device → RouterOsMetrics → DeviceMetric
snapshot_of outside device m = record {
  device_id = device.id;
  collected_at = outside.now;
  cpu_load = m.cpu_load;
  free_memory = m.free_memory;
  total_memory = m.total_memory;
  uptime = truthy m.uptime;
  interfaces = outside.stringify (or_default m.interfaces []);
}

-- The devices that a round does not skip.
abbrev pub is_polled_type : ConnectionType → Bool
is_polled_type agent = false
is_polled_type snmp = false
is_polled_type rest = true
is_polled_type binary_api = true

module _ (engine : Engine) (outside : Outside) where
  -- A statement that is refused throws, and the round goes on with the next device.
  abbrev pub with_metric : RouterOsMetrics → Device → Store engine → Store engine
  with_metric m device store =
      if is_some m.cpu_load || is_some m.free_memory
      then (elim (engine.insert (snapshot_of outside device m) store.device_metrics) [
        | none ↦ store
        | some metrics ↦ record store { device_metrics = metrics }
      ])
      else store

  unfoldable pub record_answer : RouterOsMetrics → Device → Store engine → Store engine
  record_answer m device store =
      if m.success
      then (elim (engine.update (λ d. d.id == device.id) (seen outside.now m device)
          store.devices) [
            | none ↦ store
            | some devices ↦ with_metric m device (record store { devices = devices })
          ])
      else if status_eq device.status online
      then (elim (engine.update (λ d. d.id == device.id) (gone outside.now) store.devices) [
        | none ↦ store
        | some devices ↦ record store { devices = devices }
      ])
      else store

  abbrev pub poll_at : Text → Device → Store engine → Store engine
  poll_at ip device store =
      elim (credential outside.decrypt device.api_username_enc (codes "admin")) [
        | none ↦ store
        | some username ↦ elim (credential outside.decrypt device.api_password_enc []) [
          | none ↦ store
          | some password ↦
              record_answer (outside.collect ip device.api_port username password) device store
        ]
      ]

  abbrev pub poll_ip : Option Text → Device → Store engine → Store engine
  poll_ip none device store = store
  poll_ip (some []) device store = store
  poll_ip (some (c ∷ s)) device store = poll_at (c ∷ s) device store

  unfoldable pub poll_device : Device → Store engine → Store engine
  poll_device device store =
      if is_polled_type device.connection_type
      then poll_ip device.ip_address device store
      else store

  unfoldable pub poll_devices : List Device → Store engine → Store engine
  poll_devices [] store = store
  poll_devices (d ∷ ds) store = poll_devices ds (poll_device d store)

  -- `poll`
  unfoldable pub poll : Store engine → Store engine
  poll store = poll_devices (engine.select (λ d. true) store.devices) store
