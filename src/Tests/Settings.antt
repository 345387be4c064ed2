-- ===== src/Tests/Settings.antt =====
-- Runs of the page of settings, of the navigation and of the retries.
use mikrotikbandwidthmonitor.Web.Settings.Saved.{last_input, saved_org, update_org-save}
use mikrotikbandwidthmonitor.Tests.Tables.{keep_if, set_if, list_engine}
use mikrotikbandwidthmonitor.Tests.Orgs.{acme}
use mikrotikbandwidthmonitor.Tests.Devices.{eve}
use mikrotikbandwidthmonitor.Api.Devices.Tenancy.{member}
use mikrotikbandwidthmonitor.Api.Database.{first}
use mikrotikbandwidthmonitor.Api.Schema.{Organization, OrgStore}
use mikrotikbandwidthmonitor.Api.Orgs.{update_org}
use mikrotikbandwidthmonitor.Prelude.{inl, inr, ap, ◌≡◌, refl, some, none, true, false, ◌∷◌, [], ok}
use mikrotikbandwidthmonitor.Prelude.Bytes.{codes, text_eq}
use mikrotikbandwidthmonitor.Web.Settings.{
  SettingsPage, first_settings, settings_event, handle_save_org, handle_invite, shown_org_name,
  press_save, press_invite,
}
use mikrotikbandwidthmonitor.Web.Sidebar.{
  nav_items, starts_with_text, is_active, active_items, retry,
}

run : Unit {0}
unfolding first_settings settings_event handle_save_org handle_invite shown_org_name text_eq
    starts_with_text is_active active_items retry update_org keep_if set_if first
run = tt

abbrev page : SettingsPage
page = first_settings (some (codes "Acme"))

-- An empty name is not sent, and the old one is shown again.
cleared :
    settings_event (λ s. true) (record page { org_name = [] }) press_save
    ≡ some (record page {
      org_name = [];
      saving_org = record { is_pending = true; error = none };
      saves = record { name = none; timezone = some (codes "UTC") } ∷ [];
    })
unfolding run
cleared = refl

shown_again : shown_org_name (some (codes "Acme")) (record page { org_name = [] }) ≡ codes "Acme"
unfolding run
shown_again = refl

nobody : settings_event (λ s. true) page press_invite ≡ none
unfolding run
nobody = refl

details_open : active_items (codes "/devices/3") nav_items ≡ codes "Devices" ∷ []
unfolding run
details_open = refl

no_retry : retry 0 (some 404) ≡ false
unfolding run
no_retry = refl

abbrev orgs : OrgStore list_engine
orgs = record { users = []; organizations = acme ∷ []; org_memberships = [] }

abbrev renaming : SettingsPage
renaming = record page { org_name = codes "Acme Networks" }

abbrev renamed : OrgStore list_engine
renamed = record orgs { organizations = saved_org 9 renaming acme ∷ [] }

abbrev saving : SettingsPage
saving = record renaming {
  saving_org = record { is_pending = true; error = none };
  saves = record { name = some (codes "Acme Networks"); timezone = some (codes "UTC") } ∷ [];
}

pressed : settings_event (λ s. true) renaming press_save ≡ some saving
unfolding run
pressed = refl

saved :
    update_org list_engine 9 (member eve 7) orgs (last_input saving.saves)
    ≡ ok (saved_org 9 renaming acme, renamed)
unfolding run
saved = refl

still_there :
    (o : Organization) → list_engine.Has orgs.organizations o → o.id ≡ 7 → o.name ≡ codes "Acme"
still_there o (inl same) e = ap (λ (x : Organization). x.name) same
still_there o (inr m) e = elim m [ ]

update_org-save_example :
    (old : Organization) × list_engine.Has orgs.organizations old
    × (old.id ≡ 7)
    × (saved_org 9 renaming acme
        ≡ record old { name = shown_org_name (some (codes "Acme")) renaming; updated_at = 9 })
    × list_engine.Has renamed.organizations (saved_org 9 renaming acme)
update_org-save_example =
    update_org-save list_engine eve 7 orgs (λ s. true) 9 renaming (codes "Acme") still_there pressed
      saved
