-- ===== src/Api/Devices.antt =====
-- apps/api/src/trpc/routers/devices.ts. `engine` is the database; new ids, tokens and the clock are
-- arguments. A mutation gives the new store with its answer.
mod Input
pub mod Tenancy
pub mod Pages
pub mod Paging
pub use Input.*
use Prim.Native.String.{String}
use mikrotikbandwidthmonitor.Prelude.{
  Result, ok, err, ◌>>=◌, ℕ, zero, suc, ◌+◌, ◌*◌, ◌-◌, Bool, true, false, not, ◌&&◌, ◌||◌, Option,
  none, some, List, [], ◌∷◌, ◌++◌, map, ltb, leb, ◌==◌, if◌then◌else◌, length, take,
}
use mikrotikbandwidthmonitor.Prelude.Bytes.{Text, codes}
use mikrotikbandwidthmonitor.Api.Database.{Engine, first}
use mikrotikbandwidthmonitor.Api.Schema.{
  Uuid, ConnectionType, agent, rest, binary_api, snmp, DeviceStatus, online, offline, warning,
  unreachable, Device, DeviceMetric, AgentEnrollment, ConfigSnapshot, PendingCommand, AlertRule,
  AlertEvent, Job, refresh, Store,
}
use mikrotikbandwidthmonitor.RouterOs.Uptime.{Number}
use mikrotikbandwidthmonitor.Api.Context.{
  ApiError, not_found, database, Context, protected_procedure,
}

module _ (engine : Engine) where
  -- The conditions of `list`.
  abbrev pub by_status : Option DeviceStatus → Device → Bool
  by_status none d = true
  by_status (some status) d = status_eq d.status status

  abbrev pub by_site : Option Uuid → Device → Bool
  by_site none d = true
  by_site (some site) d = is_some_uuid site d.site_id

  abbrev pub by_tags : Option (List Text) → Device → Bool
  by_tags none d = true
  by_tags (some []) d = true
  by_tags (some (t ∷ ts)) d = engine.contains d.tags (t ∷ ts)

  abbrev pub like : Option Text → Text → Bool
  like none pattern = false
  like (some s) pattern = engine.ilike s pattern

  abbrev pub by_search : Option Text → Device → Bool
  by_search none d = true
  by_search (some []) d = true
  by_search (some (c ∷ s)) d =
      let pattern = b'%' ∷ (c ∷ s ++ (b'%' ∷ [])) in
      engine.ilike d.name pattern || like d.description pattern || like d.ip_address pattern

  unfoldable pub matches : Uuid → ListInput → Device → Bool
  matches org input d =
      d.org_id == org
      && (by_status input.status d
          && (by_site input.site_id d
              && (by_tags input.tags d && (by_search input.search d && behind input.cursor d.id))))

  unfoldable pub list : Context → Store engine → ListInput → Result ApiError (Page Device)
  list ctx store input = protected_procedure ctx (λ user org. ok (
      page_of (λ d. d.id) input.limit
        (take (input.limit + 1)
          (engine.order_asc (λ d. d.id) (engine.select (matches org input) store.devices)))))

  -- The check of ownership that the procedures share.
  unfoldable pub find_owned : Store engine → Uuid → Uuid → Result ApiError Device
  find_owned store org id = elim (first (engine.select (owned org id) store.devices)) [
    | none ↦ err not_found
    | some d ↦ ok d
  ]

  -- `add`; `seal` is `encryptCredential` with its nonces.
  unfoldable pub add :
      (Text → Text) → Uuid → ℕ → Context → Store engine → AddInput → AnswerOf engine Device
  add seal id now ctx store input = protected_procedure ctx (λ user org.
      let device = new_device seal id now org input in
      elim (engine.insert device store.devices) [
        | none ↦ err database
        | some devices ↦ ok (device, record store { devices = devices })
      ])

  -- `update`; the answer is the row that `returning` gives, found by its id.
  unfoldable pub update :
      ℕ → Context → Store engine → Uuid → UpdateInput → AnswerOf engine (Option Device)
  unfolding find_owned
  update now ctx store id input = protected_procedure ctx (λ user org.
      find_owned store org id >>= λ existing.
      elim (engine.update (λ d. d.id == id) (updated_device now input) store.devices) [
        | none ↦ err database
        | some devices ↦
            ok (first (engine.select (λ d. d.id == id) devices), record store { devices = devices })
      ])

  -- The rows that the foreign keys delete with a device.
  abbrev pub cascade_device : Uuid → Store engine → Store engine
  cascade_device id store = record store {
    device_metrics = engine.delete (λ m. m.device_id == id) store.device_metrics;
    agent_enrollments = engine.delete (λ e. e.device_id == id) store.agent_enrollments;
    config_snapshots = engine.delete (λ s. s.device_id == id) store.config_snapshots;
    pending_commands = engine.delete (λ c. c.device_id == id) store.pending_commands;
    alert_rules = engine.delete (λ r. is_some_uuid id r.device_id) store.alert_rules;
    alert_events = engine.delete (λ e. e.device_id == id) store.alert_events;
  }

  -- `remove`: `returning` gives the row that the statement deletes, if there is one.
  unfoldable pub remove : Context → Store engine → Uuid → AnswerOf engine Uuid
  unfolding find_owned
  remove ctx store id = protected_procedure ctx (λ user org. find_owned store org id >>= λ deleted.
      ok (
        deleted.id,
        cascade_device deleted.id
            (record store { devices = engine.delete (owned org id) store.devices }),
      ))

  -- `redis.lpush`
  abbrev pub lpush : Job → Store engine → Store engine
  lpush job store = record store { jobs = job ∷ store.jobs }

  unfoldable pub refresh_status : ℕ → Context → Store engine → Uuid → AnswerOf engine Uuid
  unfolding find_owned
  refresh_status now ctx store id = protected_procedure ctx (λ user org.
      find_owned store org id >>= λ device. ok (device.id, lpush (refresh device.id org now) store))

  -- What `get` adds to the row: the last metrics. `interface_count` is the parse of the JSON text.
  pub record DeviceDetail : Type 0 where
    pub device : Device
    pub uptime_seconds : Option ℕ
    pub last_cpu_load : Option Number
    pub last_free_memory : Option Number
    pub last_total_memory : Option Number
    pub interface_count : Option ℕ

  abbrev pub nonzero_option : Option ℕ → Option ℕ
  nonzero_option none = none
  nonzero_option (some zero) = none
  nonzero_option (some (suc n)) = some (suc n)

  abbrev pub detail_of : (Text → ℕ) → Device → Option DeviceMetric → DeviceDetail
  detail_of count d none = record {
    device = d;
    uptime_seconds = nonzero_option d.uptime_seconds;
    last_cpu_load = none;
    last_free_memory = none;
    last_total_memory = none;
    interface_count = none;
  }
  detail_of count d (some m) = record {
    device = d;
    uptime_seconds = nonzero_option d.uptime_seconds;
    last_cpu_load = m.cpu_load;
    last_free_memory = m.free_memory;
    last_total_memory = m.total_memory;
    interface_count = nonzero_option (some (count m.interfaces));
  }

  -- `count` is the length of what `JSON.parse` gives for the stored interfaces.
  unfoldable pub get : (Text → ℕ) → Context → Store engine → Uuid → Result ApiError DeviceDetail
  unfolding find_owned
  get count ctx store id = protected_procedure ctx (λ user org.
      find_owned store org id >>= λ device. ok (
        detail_of count device (
          first (
            engine.order_desc (λ m. m.collected_at)
              (engine.select (λ m. m.device_id == device.id) store.device_metrics)))))

  -- `metricHistory`, with the range in milliseconds
  unfoldable pub metric_history :
      ℕ → Context → Store engine → Uuid → TimeRange → ℕ → Result ApiError (List DeviceMetric)
  unfolding find_owned
  metric_history now ctx store id range limit = protected_procedure ctx (λ user org.
      find_owned store org id >>= λ device. ok (
        take limit (
          engine.order_asc (λ m. m.collected_at)
            (engine.select (λ m. m.device_id == id && leb now (m.collected_at + range_length range))
              store.device_metrics))))

  -- `generateEnrollToken`; the token is that of `randomBytes(32)`.
  unfoldable pub generate_enroll_token :
      Uuid → Text → Option Text → ℕ → Context → Store engine → Uuid → AnswerOf engine EnrollToken
  unfolding find_owned
  generate_enroll_token row_id token public_url now ctx store id =
      protected_procedure ctx (λ user org. find_owned store org id >>= λ device.
      elim (engine.insert (new_enrollment row_id token now id) store.agent_enrollments) [
        | none ↦ err database
        | some enrollments ↦
            ok (enroll_token public_url token, record store { agent_enrollments = enrollments })
      ])

  -- `checkEnrollment`: by the enrollment whose token was used, if there is one
  unfoldable pub check_enrollment : Context → Store engine → Uuid → Result ApiError EnrollmentStatus
  unfolding find_owned
  check_enrollment ctx store id = protected_procedure ctx (λ user org.
      find_owned store org id >>= λ device. ok (
        enrollment_status
          (first (engine.select (λ e. e.device_id == id && e.token_used) store.agent_enrollments))))

  -- The mutations, as one request each.
  pub data Mutation : Type 0 where
    add_device : (Text → Text) → Uuid → ℕ → AddInput → Mutation
    update_device : ℕ → Uuid → UpdateInput → Mutation
    remove_device : Uuid → Mutation
    refresh_device : ℕ → Uuid → Mutation
    enroll_device : Uuid → Text → Option Text → ℕ → Uuid → Mutation

  abbrev pub store_of : {A : Type 0} → AnswerOf engine A → Result ApiError (Store engine)
  store_of (ok (a, store)) = ok store
  store_of (err e) = err e

  unfoldable pub mutate : Context → Store engine → Mutation → Result ApiError (Store engine)
  mutate ctx store (add_device seal id now input) = store_of (add seal id now ctx store input)
  mutate ctx store (update_device now id input) = store_of (update now ctx store id input)
  mutate ctx store (remove_device id) = store_of (remove ctx store id)
  mutate ctx store (refresh_device now id) = store_of (refresh_status now ctx store id)
  mutate ctx store (enroll_device row_id token public_url now id) =
      store_of (generate_enroll_token row_id token public_url now ctx store id)
