-- ===== src/Api/Devices/Tenancy.antt =====
-- What the mutations of apps/api/src/trpc/routers/devices.ts leave alone.
use mikrotikbandwidthmonitor.Prelude.{
  ℕ, ◌+◌, ltb, length-take, ◌≤◌, length, take, ◌≡◌, refl, sym, ap, ◌∙◌, true, Option, none, some,
  List, subst, ◌==◌, inl, inr, Bool-cases, Option-cases, All, arith, ok, ==_iff, All-widen,
  All-take,
}
use mikrotikbandwidthmonitor.Prelude.Bytes.{Text}
use mikrotikbandwidthmonitor.Api.Database.{Engine, first}
use mikrotikbandwidthmonitor.Api.Schema.{Uuid, Device, DeviceMetric, Store}
use mikrotikbandwidthmonitor.Api.Context.{SessionUser, Context}
use mikrotikbandwidthmonitor.Api.Tenancy.{
  first-select, HasUniqueIds, KeepsOthers, insert-KeepsOthers, delete-KeepsOthers,
  update-KeepsOthers,
}
use mikrotikbandwidthmonitor.Api.Devices.{
  owned, new_device, updated_device, find_owned, add, update, remove, refresh_status, mutate,
  Mutation, add_device, update_device, remove_device, refresh_device, enroll_device,
  generate_enroll_token, ListInput, Page, DeviceDetail, detail_of, get, list, matches, page_of,
  new_enrollment,
}

-- A request of a user within an organization.
abbrev pub member : SessionUser → Uuid → Context
member user org = record { user = some user; org = some org }

abbrev pub org_of : Device → Uuid
org_of d = d.org_id

abbrev pub id_of : Device → Uuid
id_of d = d.id

pub page_of-All :
    (P : Device → Type 0) (limit : ℕ) (ds : List Device)
    → All P ds
    → All P (page_of id_of limit ds).items
page_of-All P limit ds h = elim (Bool-cases (ltb limit (length ds))) [
  | inl more ↦ rw more (All-take P limit ds h)
  | inr last ↦ rw last h
]

pub page_of-length : (limit : ℕ) (ds : List Device) → length (page_of id_of limit ds).items ≤ limit
page_of-length limit ds = elim (Bool-cases (ltb limit (length ds))) [
  | inl more ↦ rw more (omega (arith, length-take limit ds))
  | inr last ↦ rw last (ground arith)
]

module _ (engine : Engine) where
  -- The row of an id that the organization has is the organization's.
  hit_owned :
      (org id : Uuid) (t : engine.Table Device) (existing : Device)
      → HasUniqueIds engine id_of t
      → engine.Has t existing
      → owned org id existing ≡ true
      → (x : Device) → engine.Has t x
      → (x.id == id) ≡ true
      → x.org_id ≡ org
  hit_owned org id t existing unique h o x hx hit =
      let same : existing.id ≡ id = ground arith in
      let mine : existing.org_id ≡ org = ground arith in
      ap org_of (unique x existing hx h ((==_iff x.id id).0 hit ∙ sym same)) ∙ mine

  module _ (user : SessionUser) (org : Uuid) (store : Store engine) where
    same_devices :
        {t : engine.Table Device} (store' : Store engine)
        → t ≡ store'.devices
        → KeepsOthers engine org_of org store.devices t
        → KeepsOthers engine org_of org store.devices store'.devices
    same_devices store' e k = subst (KeepsOthers engine org_of org store.devices) e k

    -- Every mutation of the devices by a member of an organization (adding, updating, removing,
    -- refreshing or enrolling one, with any input) that succeeds leaves the devices of all other
    -- organizations as they were: none of them is changed or removed, and none is new. Device ids are
    -- unique in the table.
    pub mutate-KeepsOthers :
        (m : Mutation engine) {store' : Store engine}
        → HasUniqueIds engine id_of store.devices
        → mutate engine (member user org) store m ≡ ok store'
        → KeepsOthers engine org_of org store.devices store'.devices
    unfolding mutate generate_enroll_token add update remove refresh_status find_owned
    mutate-KeepsOthers (add_device seal id now input) {store'} unique e =
        elim (Option-cases (engine.insert (new_device seal id now org input) store.devices)) [
          | inl refused ↦ cc (rw (refused, mutate, add) at e)
          | inr (devices, inserted) ↦
              same_devices store' (cc (rw (inserted, mutate, add) at e))
                (insert-KeepsOthers engine org_of org store.devices _ refl inserted)
        ]
    mutate-KeepsOthers (update_device now id input) {store'} unique e =
        elim (Option-cases (first (engine.select (owned org id) store.devices))) [
          | inl absent ↦ cc (rw (absent, mutate, update, find_owned) at e)
          | inr (existing, found) ↦
              let (h, o) = first-select engine (owned org id) store.devices found in
              elim (Option-cases
                (engine.update (λ d. d.id == id) (updated_device now input) store.devices)) [
                  | inl refused ↦ cc (rw (found, mutate, update, find_owned) at e)
                  | inr (devices, changed) ↦
                      same_devices store' (cc (rw (found, mutate, update, find_owned) at e)) (
                        update-KeepsOthers engine org_of org store.devices (λ d. d.id == id)
                          (updated_device now input)
                          (hit_owned org id store.devices existing unique h o) (λ x. refl) changed)
                ]
        ]
    mutate-KeepsOthers (remove_device id) {store'} unique e =
        elim (Option-cases (first (engine.select (owned org id) store.devices))) [
          | inl absent ↦ cc (rw (absent, mutate, remove, find_owned) at e)
          | inr (deleted, found) ↦
              same_devices store' (cc (rw (found, mutate, remove, find_owned) at e)) (
                delete-KeepsOthers engine org_of org store.devices (owned org id)
                  (λ x h. ground arith))
        ]
    mutate-KeepsOthers (refresh_device now id) {store'} unique e =
        elim (Option-cases (first (engine.select (owned org id) store.devices))) [
          | inl absent ↦ cc (rw (absent, mutate, refresh_status, find_owned) at e)
          | inr (device, found) ↦
              same_devices store' (cc (rw (found, mutate, refresh_status, find_owned) at e))
                (record { kept = λ h other. h; known = λ h other. h })
        ]
    mutate-KeepsOthers (enroll_device row_id token public_url now id) {store'} unique e =
        elim (Option-cases (first (engine.select (owned org id) store.devices))) [
          | inl absent ↦ cc (rw (absent, mutate, generate_enroll_token, find_owned) at e)
          | inr (device, found) ↦
              elim (Option-cases
                (engine.insert (new_enrollment row_id token now id) store.agent_enrollments)) [
                  | inl refused ↦ cc (
                      rw (refused, mutate, generate_enroll_token) at rw
                        (found, mutate, generate_enroll_token, find_owned) at e)
                  | inr (enrollments, inserted) ↦
                      same_devices store'
                        (cc (
                          rw (inserted, mutate, generate_enroll_token) at rw
                            (found, mutate, generate_enroll_token, find_owned) at e))
                        (record { kept = λ h other. h; known = λ h other. h })
                ]
        ]

  detail_of_device :
      (count : Text → ℕ) (d : Device) (m : Option DeviceMetric)
      → (detail_of engine count d m).device ≡ d
  detail_of_device count d none = refl
  detail_of_device count d (some m) = refl

  module _ (user : SessionUser) (org : Uuid) (store : Store engine) where
    -- Every device that a page lists is a device of the caller's organization that stands in the table,
    -- whatever the filters are, and a page has no more devices than its limit.
    pub list_owned :
        (input : ListInput) {page : Page Device}
        → list engine (member user org) store input ≡ ok page
        → All (λ d. engine.Has store.devices d × (d.org_id ≡ org)) page.items
          × (length page.items ≤ input.limit)
    unfolding list matches
    list_owned input {page} e =
        let Fits : Device → Type 0 = λ d. engine.Has store.devices d × (d.org_id ≡ org) in
        let found = engine.select (matches engine org input) store.devices in
        let sorted = engine.order_asc (λ d. d.id) found in
        let fits =
          All-widen (λ d. engine.Has store.devices d × (matches engine org input d ≡ true)) Fits
            (λ d h. (h.0, ground (arith, h.1))) found
            (engine.selected (matches engine org input) store.devices) in
        let same : page_of id_of input.limit (take (input.limit + 1) sorted) ≡ page = cc e in
        subst (λ (p : Page Device). All Fits p.items × (length p.items ≤ input.limit)) same
          (
            page_of-All Fits input.limit (take (input.limit + 1) sorted) (
                All-take Fits (input.limit + 1) sorted
                  (engine.ordered_asc (λ d. d.id) Fits found fits)),
            page_of-length input.limit (take (input.limit + 1) sorted),
          )

    -- The device that `get` gives is the one of that id, and it belongs to the caller's organization.
    pub get_owned :
        (count : Text → ℕ) (id : Uuid) {detail : DeviceDetail engine}
        → get engine count (member user org) store id ≡ ok detail
        → engine.Has store.devices detail.device
          × (detail.device.id ≡ id)
          × (detail.device.org_id ≡ org)
    unfolding get
    get_owned count id {detail} e =
        elim (Option-cases (first (engine.select (owned org id) store.devices))) [
          | inl absent ↦ cc (rw (absent, get, find_owned) at e)
          | inr (device, found) ↦
              let (h, o) = first-select engine (owned org id) store.devices found in
              let metric = first (
                engine.order_desc (λ m. m.collected_at)
                  (engine.select (λ m. m.device_id == device.id) store.device_metrics)) in
              let given : detail_of engine count device metric ≡ detail =
                cc (rw (found, get, find_owned) at e) in
              let same : device ≡ detail.device =
                sym (detail_of_device count device metric)
                ∙ ap (λ (x : DeviceDetail engine). x.device) given in
              let IsFound : Device → Type 0 =
                λ d. engine.Has store.devices d × (d.id ≡ id) × (d.org_id ≡ org) in
              subst IsFound same (h, ground arith, ground arith)
        ]
