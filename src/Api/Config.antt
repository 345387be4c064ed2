-- ===== src/Api/Config.antt =====
-- apps/api/src/trpc/routers/config.ts: snapshots of a device's configuration.
pub mod Diff
pub mod Tenancy
use mikrotikbandwidthmonitor.Prelude.{
  Result, ok, err, ◌>>=◌, ℕ, suc, ◌+◌, Bool, true, false, not, ◌&&◌, ◌||◌, Option, none, some, List,
  [], ◌∷◌, ltb, ◌==◌, if◌then◌else◌, length, take,
}
use mikrotikbandwidthmonitor.Prelude.Bytes.{Text, text_eq}
use mikrotikbandwidthmonitor.Api.Database.{Engine, first}
use mikrotikbandwidthmonitor.Api.Schema.{Uuid, ConfigSnapshot, SnapshotTrigger, Store, backup}
use mikrotikbandwidthmonitor.Api.Context.{ApiError, not_found, Context, protected_procedure}
use mikrotikbandwidthmonitor.Api.Devices.{page_of, AnswerOf, Page, behind, find_owned, lpush}

-- `text.split("\n")`
abbrev grow : ℕ → List Text → List Text
grow c [] = (c ∷ []) ∷ []
grow c (l ∷ ls) = (c ∷ l) ∷ ls

unfoldable pub split_lines : Text → List Text
split_lines [] = [] ∷ []
split_lines (c ∷ s) = if c == 10 then [] ∷ split_lines s else grow c (split_lines s)

-- `lines.includes(l)`
unfoldable pub includes : Text → List Text → Bool
includes l [] = false
includes l (m ∷ ls) = text_eq m l || includes l ls

-- `lines.filter((l) => !others.includes(l))`
unfoldable pub lines_not_in : List Text → List Text → List Text
lines_not_in others [] = []
lines_not_in others (l ∷ ls) =
    let later = lines_not_in others ls in if includes l others then later else l ∷ later

-- `a === b` on checksums that may be null
abbrev pub checksum_eq : Option Text → Option Text → Bool
checksum_eq none none = true
checksum_eq none (some t) = false
checksum_eq (some s) none = false
checksum_eq (some s) (some t) = text_eq s t

pub record SnapshotRef : Type 0 where
  pub id : Uuid
  pub taken_at : ℕ
  pub checksum : Option Text

abbrev pub ref_of : ConfigSnapshot → SnapshotRef
ref_of s = record { id = s.id; taken_at = s.taken_at; checksum = s.checksum }

pub record DiffResult : Type 0 where
  pub snapshot_a : SnapshotRef
  pub snapshot_b : SnapshotRef
  pub unchanged : Bool
  pub added : List Text
  pub removed : List Text
  pub added_count : ℕ
  pub removed_count : ℕ

unfoldable pub diff_of : ConfigSnapshot → ConfigSnapshot → DiffResult
diff_of a b =
    let lines_a = split_lines a.export_rsc in
    let lines_b = split_lines b.export_rsc in
    let added = lines_not_in lines_a lines_b in
    let removed = lines_not_in lines_b lines_a in
    record {
      snapshot_a = ref_of a;
      snapshot_b = ref_of b;
      unchanged = checksum_eq a.checksum b.checksum;
      added = added;
      removed = removed;
      added_count = length added;
      removed_count = length removed;
    }

-- The row of the list view: `exportRsc` and `storageKey` are left out.
pub record SnapshotItem : Type 0 where
  pub id : Uuid
  pub device_id : Uuid
  pub org_id : Uuid
  pub taken_at : ℕ
  pub triggered_by : SnapshotTrigger
  pub triggered_by_user_id : Option Uuid
  pub size_bytes : Option ℕ
  pub checksum : Option Text

abbrev pub item_of : ConfigSnapshot → SnapshotItem
item_of s = record {
  id = s.id;
  device_id = s.device_id;
  org_id = s.org_id;
  taken_at = s.taken_at;
  triggered_by = s.triggered_by;
  triggered_by_user_id = s.triggered_by_user_id;
  size_bytes = s.size_bytes;
  checksum = s.checksum;
}

abbrev items_of : List ConfigSnapshot → List SnapshotItem
items_of [] = []
items_of (s ∷ ss) = item_of s ∷ items_of ss

module _ (engine : Engine) where
  unfoldable pub list_snapshots :
      Context → Store engine → Uuid → ℕ → Option Uuid → Result ApiError (Page SnapshotItem)
  unfolding find_owned
  list_snapshots ctx store device_id limit cursor = protected_procedure ctx (λ user org.
      find_owned engine store org device_id >>= λ device. ok (
        page_of (λ s. s.id) limit
          (items_of (
            take (limit + 1) (
              engine.order_desc (λ s. s.taken_at)
                (engine.select
                  (λ s. s.device_id == device_id && (s.org_id == org && behind cursor s.id))
                  store.config_snapshots))))))

  -- A snapshot of the organization, by its id.
  unfoldable pub find_snapshot : Store engine → Uuid → Uuid → Result ApiError ConfigSnapshot
  find_snapshot store org id =
      elim (first (engine.select (λ s. s.id == id && s.org_id == org) store.config_snapshots)) [
        | none ↦ err not_found
        | some s ↦ ok s
      ]

  unfoldable pub get_snapshot : Context → Store engine → Uuid → Result ApiError ConfigSnapshot
  unfolding find_snapshot
  get_snapshot ctx store id = protected_procedure ctx (λ user org. find_snapshot store org id)

  unfoldable pub trigger_backup : ℕ → Context → Store engine → Uuid → AnswerOf engine Uuid
  unfolding find_owned
  trigger_backup now ctx store device_id = protected_procedure ctx (λ user org.
      find_owned engine store org device_id >>= λ device.
      ok (device.id, lpush engine (backup device.id org user.id now) store))

  unfoldable pub diff : Context → Store engine → Uuid → Uuid → Result ApiError DiffResult
  unfolding find_snapshot
  diff ctx store id_a id_b = protected_procedure ctx (λ user org.
      find_snapshot store org id_a >>= λ a. find_snapshot store org id_b >>= λ b. ok (diff_of a b))
