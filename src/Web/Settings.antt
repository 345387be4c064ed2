-- ===== src/Web/Settings.antt =====
-- The page of apps/web/src/app/(dashboard)/settings/page.tsx: its two forms and the members' buttons.
pub mod Saved
use mikrotikbandwidthmonitor.Web.Text.{filled_text}
use mikrotikbandwidthmonitor.Prelude.{
  if◌then◌else◌, suc, some, ◌&&◌, [], not, ℕ, false, true, none, zero, refl, ◌≡◌, Option, ◌∷◌, Bool,
  List,
}
use mikrotikbandwidthmonitor.Api.Devices.{or_default, filled}
use mikrotikbandwidthmonitor.Api.Schema.{Uuid, Organization}
use mikrotikbandwidthmonitor.Api.Orgs.{
  MemberRole, as_operator, UpdateOrgInput, unless_empty, updated_org,
}
use mikrotikbandwidthmonitor.Prelude.Bytes.{Text, codes}

-- A mutation: whether it is on its way, and the error of its last answer.
pub record Mutation : Type 0 where
  pub is_pending : Bool
  pub error : Option Text

abbrev pub idle_mutation : Mutation
idle_mutation = record { is_pending = false; error = none }

-- The input of `updateOrg.mutate`
pub record SaveOrg : Type 0 where
  pub name : Option Text
  pub timezone : Option Text

-- The state of the page, and the calls that it made, the last first. `shown_saved` is the state
-- `saveSuccess`, and `resets` counts the timers that will take it back.
pub record SettingsPage : Type 0 where
  pub org_name : Text
  pub timezone : Text
  pub shown_saved : Bool
  pub resets : ℕ
  pub invite_email : Text
  pub invite_role : MemberRole
  pub saving_org : Mutation
  pub inviting : Mutation
  pub saves : List SaveOrg
  pub invites : List (Text × MemberRole)
  pub removals : List Uuid

-- The first state. `name` is that of the organization, if it is there when the page appears; it has
-- no time zone.
unfoldable pub first_settings : (name : Option Text) → SettingsPage
first_settings name = record {
  org_name = or_default name [];
  timezone = codes "UTC";
  shown_saved = false;
  resets = 0;
  invite_email = [];
  invite_role = as_operator;
  saving_org = idle_mutation;
  inviting = idle_mutation;
  saves = [];
  invites = [];
  removals = [];
}

-- `orgName || (org?.name ?? "")`
unfoldable pub shown_org_name : (name : Option Text) → SettingsPage → Text
shown_org_name name page = if filled_text page.org_name then page.org_name else or_default name []

abbrev pub save_request : SettingsPage → SaveOrg
save_request page = record {
  name = filled (some page.org_name);
  timezone = filled (some page.timezone);
}

-- `handleSaveOrg`
unfoldable pub handle_save_org : SettingsPage → SettingsPage
handle_save_org page = record page {
  saving_org = record { is_pending = true; error = none };
  saves = save_request page ∷ page.saves;
}

-- `handleInvite`
unfoldable pub handle_invite : SettingsPage → SettingsPage
handle_invite page = record page {
  inviting = record { is_pending = true; error = none };
  invites = (page.invite_email, page.invite_role) ∷ page.invites;
}

pub data SettingsEvent : Type 0 where
  org_name_is timezone_is invite_email_is : Text → SettingsEvent
  invite_role_is : MemberRole → SettingsEvent
  press_save press_invite : SettingsEvent
  press_remove : Uuid → SettingsEvent
  -- the answers, and the timer of two seconds
  org_saved member_invited reset_saved : SettingsEvent
  save_failed invite_failed : (message : Text) → SettingsEvent

abbrev pub permitted : Bool → SettingsPage → Option SettingsPage
permitted true page = some page
permitted false page = none

abbrev pub on_reset : ℕ → SettingsPage → Option SettingsPage
on_reset zero page = none
on_reset (suc n) page = some (record page { shown_saved = false; resets = n })

-- One event; `none` where the page does not offer it. The form of the organization appears once it is
-- loaded. `is_email` is what the browser checks of the
-- address before it submits the form.
unfoldable pub settings_event :
    (is_email : Text → Bool) → SettingsPage → SettingsEvent → Option SettingsPage
unfolding handle_save_org handle_invite
settings_event is_email page (org_name_is s) = some (record page { org_name = s })
settings_event is_email page (timezone_is s) = some (record page { timezone = s })
settings_event is_email page (invite_email_is s) = some (record page { invite_email = s })
settings_event is_email page (invite_role_is role) = some (record page { invite_role = role })
settings_event is_email page press_save =
    permitted (not page.saving_org.is_pending) (handle_save_org page)
settings_event is_email page press_invite =
    permitted
      (not page.inviting.is_pending
        && (filled_text page.invite_email && is_email page.invite_email))
      (handle_invite page)
settings_event is_email page (press_remove id) =
    some (record page { removals = id ∷ page.removals })
settings_event is_email page org_saved =
    permitted page.saving_org.is_pending
      (record page { saving_org = idle_mutation; shown_saved = true; resets = suc page.resets })
settings_event is_email page member_invited =
    permitted page.inviting.is_pending (record page { inviting = idle_mutation; invite_email = [] })
settings_event is_email page reset_saved = on_reset page.resets page
settings_event is_email page (save_failed message) =
    permitted page.saving_org.is_pending
      (record page { saving_org = record { is_pending = false; error = some message } })
settings_event is_email page (invite_failed message) =
    permitted page.inviting.is_pending
      (record page { inviting = record { is_pending = false; error = some message } })

-- What `orgs.update` gets of a save: `updateOrgSchema` has no time zone.
abbrev pub org_input : SaveOrg → UpdateOrgInput
org_input r = record { name = r.name; settings = none }
