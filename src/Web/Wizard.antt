-- ===== src/Web/Wizard.antt =====
-- The dialog of apps/web/src/components/add-device-wizard: what each step offers, and what the
-- answers of the API do. A mutation that was started by `mutate` is forgotten when its form leaves the
-- screen; `mutateAsync` goes on.
pub mod State
pub mod Forms
pub mod Tags
pub mod Soundness
pub mod Moves
pub mod Answers
pub mod Reachable
pub mod Returns
use mikrotikbandwidthmonitor.Prelude.{
  ◌≡◌, ℕ, zero, suc, Bool, true, false, not, ◌&&◌, ◌||◌, Option, none, some, List, [], ◌∷◌, ◌++◌,
  ltb, ◌==◌, if◌then◌else◌, keep,
}
use mikrotikbandwidthmonitor.Prelude.Bytes.{Text, text_eq}
use mikrotikbandwidthmonitor.Api.Schema.{Uuid, ConnectionType, agent, rest, binary_api, snmp}
use mikrotikbandwidthmonitor.Api.Config.{includes}
use mikrotikbandwidthmonitor.Api.Devices.{SnmpVersion, filled}
use mikrotikbandwidthmonitor.RouterOs.Session.{ConnectionTestResult}
use mikrotikbandwidthmonitor.Web.Text.{trim, filled_text, without}
use mikrotikbandwidthmonitor.Web.Wizard.Forms.{
  AddRequest, TestRequest, Field, set_field, shows, add_tag, with_tags, agent_request,
  finish_request, test_request,
}
use mikrotikbandwidthmonitor.Web.Wizard.State.{
  WizardFormData, WizardState, initial_state, update_form, is_agent, can_go_next, go_next, go_back,
  succeeded,
}

-- What the mutation of the form on screen is at.
pub data Task : Type 0 where
  idle adding saving : Task
  testing : TestRequest → Task
  enrolling : Uuid → Task

-- `requests` are the calls of `devices.add`, the last one first; `abandoned` counts the calls of
-- `handleFinish` whose dialog was closed before the answer.
pub record Dialog : Type 0 where
  pub opened : Bool
  pub wizard : WizardState
  pub tag_input : Text
  pub install_cmd : Text
  pub task : Task
  pub abandoned : ℕ
  pub requests : List AddRequest

abbrev pub initial_dialog : Dialog
initial_dialog = record {
  opened = false;
  wizard = initial_state;
  tag_input = [];
  install_cmd = [];
  task = idle;
  abandoned = 0;
  requests = [];
}

-- `handleTagKeyDown` for Enter and for a comma
unfoldable pub handle_tag_key : Dialog → Dialog
handle_tag_key d =
    if filled_text (trim d.tag_input)
    then record d {
      wizard = update_form (with_tags (add_tag d.tag_input)) d.wizard;
      tag_input = [];
    }
    else d

-- What an agent form does when it appears: without a device it adds one. The command of an earlier
-- form is gone with it.
unfoldable pub mount_agent : Dialog → Dialog
mount_agent d = elim (d.wizard.created_device_id) [
  | some id ↦ record d { install_cmd = []; task = idle }
  | none ↦ record d {
    install_cmd = [];
    task = adding;
    requests = agent_request d.wizard.form_data ∷ d.requests;
  }
]

-- The form of step 3 appears.
unfoldable pub mount_details : Dialog → Dialog
unfolding mount_agent
mount_details d = if is_agent d.wizard.form_data.connection_type then mount_agent d else d

-- The step that `Next` and `Back` show, its form new.
unfoldable pub show_step : WizardState → Dialog → Dialog
unfolding mount_details
show_step w d =
    let shown = record d { wizard = w; tag_input = []; task = idle } in
    if w.step == 3 then mount_details shown else shown

abbrev pub left_behind : Task → ℕ → ℕ
left_behind saving n = suc n
left_behind _ n = n

-- `handleClose`
unfoldable pub handle_close : Dialog → Dialog
handle_close d = record d {
  opened = false;
  wizard = initial_state;
  tag_input = [];
  install_cmd = [];
  task = idle;
  abandoned = left_behind d.task d.abandoned;
}

unfoldable pub handle_test : Dialog → Dialog
handle_test d = record d {
  wizard = record d.wizard { test_result = none };
  task = testing (test_request d.wizard.form_data);
}

-- `handleFinish`, up to its `await`
unfoldable pub handle_finish : Dialog → Dialog
handle_finish d = if is_agent d.wizard.form_data.connection_type then handle_close d else record d {
  task = saving;
  requests = finish_request d.wizard.form_data d.wizard.test_result ∷ d.requests;
}

pub data Action : Type 0 where
  open_dialog close_dialog next back press_tag_key press_test press_finish : Action
  edit : Field → Action
  type_tag : Text → Action
  -- the answers
  tested : ConnectionTestResult → Action
  created : Uuid → Action
  enrolled : (token command : Text) → Action
  failed saved late_saved late_failed : Action

abbrev pub when : Bool → Dialog → Option Dialog
when true d = some d
when false d = none

abbrev pub is_testing : Task → Bool
is_testing (testing input) = true
is_testing _ = false

abbrev pub is_saving : Task → Bool
is_saving saving = true
is_saving _ = false

abbrev pub on_answer : Dialog → Action → Option Dialog
on_answer d (tested r) = elim (d.task) [
  | testing input ↦
      some (record d { wizard = record d.wizard { test_result = some r }; task = idle })
  | _ ↦ none
]
on_answer d (created id) = elim (d.task) [
  | adding ↦
      some
        (record d { wizard = record d.wizard { created_device_id = some id }; task = enrolling id })
  | _ ↦ none
]
on_answer d (enrolled token command) = elim (d.task) [
  | enrolling id ↦ some (record d {
    wizard = record d.wizard { enrollment_token = some token };
    install_cmd = command;
    task = idle;
  })
  | _ ↦ none
]
on_answer d failed = elim (d.task) [ idle ↦ none | _ ↦ some (record d { task = idle }) ]
on_answer d saved = elim (d.task) [
  | saving ↦ some (handle_close (record d { task = idle }))
  | _ ↦ none
]
on_answer d late_saved = elim (d.abandoned) [
  | zero ↦ none
  | suc n ↦ some (handle_close (record d { abandoned = n }))
]
on_answer d late_failed = elim (d.abandoned) [
  | zero ↦ none
  | suc n ↦ some (record d { abandoned = n })
]
on_answer d _ = none

-- One event; `none` where the dialog does not offer it or no such answer is awaited.
unfoldable pub act : Dialog → Action → Option Dialog
unfolding show_step handle_close handle_test handle_finish handle_tag_key
act d open_dialog = when (not d.opened) (record d { opened = true })
act d close_dialog = when d.opened (handle_close d)
act d next =
    when (d.opened && (ltb d.wizard.step 4 && can_go_next d.wizard))
      (show_step (go_next d.wizard) d)
act d back =
    when (d.opened && (ltb d.wizard.step 4 && ltb 1 d.wizard.step)) (show_step (go_back d.wizard) d)
act d (edit field) =
    when (d.opened && shows d.wizard field)
      (record d { wizard = update_form (set_field field) d.wizard })
act d (type_tag s) = when (d.opened && d.wizard.step == 1) (record d { tag_input = s })
act d press_tag_key = when (d.opened && d.wizard.step == 1) (handle_tag_key d)
act d press_test =
    when
      (d.opened
        && (d.wizard.step == 3
            && (not (is_agent d.wizard.form_data.connection_type)
                && (filled_text d.wizard.form_data.ip_address && not (is_testing d.task)))))
      (handle_test d)
act d press_finish =
    when (d.opened && (d.wizard.step == 4 && not (is_saving d.task))) (handle_finish d)
act d answer = on_answer d answer

-- The dialogs that some events lead to.
pub data Reach : Dialog → Type 0 where
  start : Reach initial_dialog
  after : {d d' : Dialog} → Reach d → (a : Action) → act d a ≡ some d' → Reach d'
