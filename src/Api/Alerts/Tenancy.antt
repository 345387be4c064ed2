-- ===== src/Api/Alerts/Tenancy.antt =====
-- What the mutations of apps/api/src/trpc/routers/alerts.ts leave alone.
use mikrotikbandwidthmonitor.Prelude.{
  ◌≡◌, refl, sym, ap, ◌∙◌, true, ◌==◌, inl, inr, Bool-cases, Option-cases, Result-cases, arith, ok,
  ==_iff, subst,
}
use mikrotikbandwidthmonitor.Api.Database.{Engine, first}
use mikrotikbandwidthmonitor.Api.Schema.{Uuid, AlertRule, Store}
use mikrotikbandwidthmonitor.Api.Context.{SessionUser}
use mikrotikbandwidthmonitor.Api.Tenancy.{
  first-select, HasUniqueIds, KeepsOthers, insert-KeepsOthers, delete-KeepsOthers,
  update-KeepsOthers,
}
use mikrotikbandwidthmonitor.Api.Devices.Tenancy.{member}
use mikrotikbandwidthmonitor.Api.Alerts.{
  is_empty_patch, owned_rule, new_rule, patched_rule, check_device, find_rule, create_rule,
  update_rule, delete_rule, mutate_rules, RuleMutation, create, update, delete,
}

abbrev pub rule_org : AlertRule → Uuid
rule_org r = r.org_id

abbrev pub rule_id : AlertRule → Uuid
rule_id r = r.id

module _ (engine : Engine) (user : SessionUser) (org : Uuid) (store : Store engine) where
  rule_owned :
      (id : Uuid) (existing : AlertRule)
      → HasUniqueIds engine rule_id store.alert_rules
      → engine.Has store.alert_rules existing
      → owned_rule org id existing ≡ true
      → (x : AlertRule) → engine.Has store.alert_rules x
      → (x.id == id) ≡ true
      → x.org_id ≡ org
  rule_owned id existing unique h o x hx hit =
      let same : existing.id ≡ id = ground arith in
      let mine : existing.org_id ≡ org = ground arith in
      ap rule_org (unique x existing hx h ((==_iff x.id id).0 hit ∙ sym same)) ∙ mine

  same_rules :
      {t : engine.Table AlertRule} (store' : Store engine)
      → t ≡ store'.alert_rules
      → KeepsOthers engine rule_org org store.alert_rules t
      → KeepsOthers engine rule_org org store.alert_rules store'.alert_rules
  same_rules store' e k = subst (KeepsOthers engine rule_org org store.alert_rules) e k

  -- Creating, updating or deleting an alert rule, as a member of an organization and with any input,
  -- leaves the rules of all other organizations as they were, where it succeeds; rule ids are unique
  -- in the table.
  pub mutate_rules-KeepsOthers :
      (m : RuleMutation engine) {store' : Store engine}
      → HasUniqueIds engine rule_id store.alert_rules
      → mutate_rules engine (member user org) store m ≡ ok store'
      → KeepsOthers engine rule_org org store.alert_rules store'.alert_rules
  unfolding mutate_rules create_rule update_rule delete_rule find_rule
  mutate_rules-KeepsOthers (create id now input) {store'} unique e =
      elim (Result-cases (check_device engine store org input.device_id)) [
        | inl (denied, check) ↦ cc
        | inr (passed, check) ↦
            elim (Option-cases (engine.insert (new_rule id now org input) store.alert_rules)) [
              | inl refused ↦ cc
              | inr (rules, inserted) ↦
                  same_rules store' (cc (rw (check, mutate_rules, create_rule) at e))
                    (insert-KeepsOthers engine rule_org org store.alert_rules _ refl inserted)
            ]
      ]
  mutate_rules-KeepsOthers (update id input) {store'} unique e =
      elim (Option-cases (first (engine.select (owned_rule org id) store.alert_rules))) [
        | inl absent ↦ cc (rw (absent, mutate_rules, update_rule, find_rule) at e)
        | inr (existing, found) ↦
            let (h, o) = first-select engine (owned_rule org id) store.alert_rules found in
            elim (Bool-cases (is_empty_patch input)) [
              | inl empty ↦ cc (rw (found, empty, mutate_rules, update_rule, find_rule) at e)
              | inr filled ↦
                  elim (Option-cases
                    (engine.update (λ r. r.id == id) (patched_rule input) store.alert_rules)) [
                      | inl refused ↦
                          cc (rw (found, filled, mutate_rules, update_rule, find_rule) at e)
                      | inr (rules, changed) ↦
                          same_rules store'
                            (cc (rw (found, filled, mutate_rules, update_rule, find_rule) at e))
                            (update-KeepsOthers engine rule_org org store.alert_rules
                              (λ r. r.id == id) (patched_rule input)
                              (rule_owned id existing unique h o) (λ x. refl) changed)
                    ]
            ]
      ]
  mutate_rules-KeepsOthers (delete id) {store'} unique e =
      elim (Option-cases (first (engine.select (owned_rule org id) store.alert_rules))) [
        | inl absent ↦ cc (rw (absent, mutate_rules, delete_rule, find_rule) at e)
        | inr (deleted, found) ↦
            same_rules store' (cc (rw (found, mutate_rules, delete_rule, find_rule) at e)) (
              delete-KeepsOthers engine rule_org org store.alert_rules (owned_rule org id)
                (λ x h. ground arith))
      ]
