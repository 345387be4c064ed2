-- ===== src/Web/Wizard/Soundness.antt =====
-- What a dialog of apps/web/src/components/add-device-wizard keeps to, and the state of its hook.
use mikrotikbandwidthmonitor.Api.Schema.{agent}
use mikrotikbandwidthmonitor.Prelude.{
  List, [], ◌∷◌, ◌≤◌, ◌≡◌, true, false, ◌&&◌, none, some, ◌⊎◌, inl, All, ltb, arith,
}
use mikrotikbandwidthmonitor.Prelude.Bytes.{Text}
use mikrotikbandwidthmonitor.Web.Text.{trim, filled_text}
use mikrotikbandwidthmonitor.Web.Wizard.State.{
  WizardState, initial_state, update_form, is_agent, details_done, can_go_next, go_next, go_back,
}
use mikrotikbandwidthmonitor.Web.Wizard.Forms.{
  AddRequest, Field, name_is, description_is, ip_is, username_is, password_is, ssh_key_is,
  community_is, port_is, auth_is, version_is, type_is, no_tag, set_field, shows,
}
use mikrotikbandwidthmonitor.Web.Wizard.Tags.{AreTags, remove_tag-AreTags}
use mikrotikbandwidthmonitor.Web.Wizard.{Task, idle, adding, saving, testing, enrolling, Dialog}

abbrev pub IsNamed : Text → Type 0
IsNamed name = filled_text (trim name) ≡ true

-- The steps stay in range; behind the first the device has a name, and on the last one there is an
-- agent or a test that succeeded.
abbrev pub IsStateSound : WizardState → Type 0
IsStateSound w =
    (1 ≤ w.step)
    × (w.step ≤ 4)
    × ((w.step ≤ 1) ⊎ IsNamed w.form_data.name)
    × ((w.step ≤ 3) ⊎ (details_done w.form_data.connection_type w.test_result ≡ true))
    × AreTags w.form_data.tags

-- The last request, if it is for an agent, and if it is not: it has what the form has now.
abbrev pub IsLastOfAgent : WizardState → List AddRequest → Type 0
IsLastOfAgent w [] = ⊥
IsLastOfAgent w (r ∷ rs) =
    (r.connection_type ≡ agent) × (r.name ≡ w.form_data.name) × (r.ip_address ≡ none)

abbrev pub IsLastOfForm : WizardState → List AddRequest → Type 0
IsLastOfForm w [] = ⊥
IsLastOfForm w (r ∷ rs) =
    (r.connection_type ≡ w.form_data.connection_type)
    × (r.name ≡ w.form_data.name)
    × (r.ip_address ≡ some w.form_data.ip_address)
    × (r.api_port ≡ some w.form_data.port)

-- A call belongs to the step that makes it, and a device that is being added is that of the form.
abbrev pub Fits : Task → WizardState → List AddRequest → Type 0
Fits idle w rs = Unit
Fits adding w rs = (w.step ≡ 3) × (is_agent w.form_data.connection_type ≡ true) × IsLastOfAgent w rs
Fits saving w rs = (w.step ≡ 4) × IsLastOfForm w rs
Fits (testing input) w rs = w.step ≡ 3
Fits (enrolling id) w rs = w.step ≡ 3

-- A request to add a device: it has a name, and an address unless it is for an agent.
abbrev pub IsRequestSound : AddRequest → Type 0
IsRequestSound r =
    IsNamed r.name
    × (((is_agent r.connection_type ≡ true) × (r.ip_address ≡ none))
        ⊎ ((is_agent r.connection_type ≡ false) × ((ip : Text) × (r.ip_address ≡ some ip))))

abbrev pub IsSound : Dialog → Type 0
IsSound d =
    IsStateSound d.wizard
    × ((d.opened ≡ true) ⊎ ((d.wizard ≡ initial_state) × (d.task ≡ idle)))
    × Fits d.task d.wizard d.requests
    × All IsRequestSound d.requests

pub initial_sound : IsStateSound initial_state
initial_sound = (omega arith, omega arith, inl (omega arith), inl (omega arith), (tt, tt))

-- Every input that a step shows keeps the state sound.
pub edited :
    (w : WizardState) (f : Field)
    → shows w f ≡ true
    → IsStateSound w
    → IsStateSound (update_form (set_field f) w)
unfolding shows set_field
edited w (name_is s) e h = ground arith
edited w (description_is s) e h = ground arith
edited w (ip_is s) e h = ground arith
edited w (username_is s) e h = ground arith
edited w (password_is s) e h = ground arith
edited w (ssh_key_is s) e h = ground arith
edited w (community_is s) e h = ground arith
edited w (port_is n) e h = ground arith
edited w (auth_is m) e h = ground arith
edited w (version_is v) e h = ground arith
edited w (type_is t) e h = ground arith
edited w (no_tag tag) e h = ground (arith, remove_tag-AreTags tag w.form_data.tags)

shown_below_4 : (w : WizardState) (f : Field) → shows w f ≡ true → w.step ≤ 3
unfolding shows
shown_below_4 w (name_is s) e = ground arith
shown_below_4 w (description_is s) e = ground arith
shown_below_4 w (ip_is s) e = ground arith
shown_below_4 w (username_is s) e = ground arith
shown_below_4 w (password_is s) e = ground arith
shown_below_4 w (ssh_key_is s) e = ground arith
shown_below_4 w (community_is s) e = ground arith
shown_below_4 w (port_is n) e = ground arith
shown_below_4 w (auth_is m) e = ground arith
shown_below_4 w (version_is v) e = ground arith
shown_below_4 w (type_is t) e = ground arith
shown_below_4 w (no_tag tag) e = ground arith

shown_by_agent :
    (w : WizardState) (f : Field)
    → shows w f ≡ true
    → w.step ≡ 3
    → is_agent w.form_data.connection_type ≡ true
    → ⊥
unfolding shows
shown_by_agent w (name_is s) e at_3 by_agent = ground arith
shown_by_agent w (description_is s) e at_3 by_agent = ground arith
shown_by_agent w (ip_is s) e at_3 by_agent = ground arith
shown_by_agent w (username_is s) e at_3 by_agent = ground arith
shown_by_agent w (password_is s) e at_3 by_agent = ground arith
shown_by_agent w (ssh_key_is s) e at_3 by_agent = ground arith
shown_by_agent w (community_is s) e at_3 by_agent = ground arith
shown_by_agent w (port_is n) e at_3 by_agent = ground arith
shown_by_agent w (auth_is m) e at_3 by_agent = ground arith
shown_by_agent w (version_is v) e at_3 by_agent = ground arith
shown_by_agent w (type_is t) e at_3 by_agent = ground arith
shown_by_agent w (no_tag tag) e at_3 by_agent = ground arith

-- The inputs that a step shows are none of those that a call on its way has sent.
pub Fits-edit :
    (t : Task) (w : WizardState) (f : Field) (rs : List AddRequest)
    → shows w f ≡ true
    → Fits t w rs
    → Fits t (update_form (set_field f) w) rs
Fits-edit idle w f rs e h = tt
Fits-edit adding w f rs e (at_3, by_agent, last) = absurd (shown_by_agent w f e at_3 by_agent)
Fits-edit saving w f rs e (at_4, last) = let low = shown_below_4 w f e in absurd (omega arith)
Fits-edit (testing input) w f rs e h = h
Fits-edit (enrolling id) w f rs e h = h

-- In the first step no call is on its way.
pub Fits-first :
    (t : Task) (w w' : WizardState) (rs : List AddRequest) → w.step ≡ 1 → Fits t w rs → Fits t w' rs
Fits-first idle w w' rs e h = tt
Fits-first adding w w' rs e (at_3, by_agent, last) = absurd (omega arith)
Fits-first saving w w' rs e (at_4, last) = absurd (omega arith)
Fits-first (testing input) w w' rs e h = absurd (omega arith)
Fits-first (enrolling id) w w' rs e h = absurd (omega arith)

pub went_next :
    (w : WizardState)
    → (ltb w.step 4 && can_go_next w) ≡ true
    → IsStateSound w
    → IsStateSound (go_next w)
unfolding go_next can_go_next
went_next w e h = ground arith

pub went_back : (w : WizardState) → IsStateSound w → IsStateSound (go_back w)
unfolding go_back
went_back w h = ground arith
