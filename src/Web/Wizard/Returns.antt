-- ===== src/Web/Wizard/Returns.antt =====
-- What is left of the work of a step of apps/web/src/components/add-device-wizard when the user
-- goes back.
-- The events one after the other, each of which the dialog has to offer.
use mikrotikbandwidthmonitor.RouterOs.Session.{ConnectionTestResult}
use mikrotikbandwidthmonitor.Api.Schema.{ConnectionType, agent, rest, binary_api, snmp}
use mikrotikbandwidthmonitor.Prelude.{
  none, true, ◌≡◌, ◌∙◌, List, Option, ℕ, [], some, arith, ◌∷◌, refl, false,
}
use mikrotikbandwidthmonitor.Web.Wizard.State.{
  WizardState, is_agent, can_go_next, go_next, go_back, update_form, succeeded, details_done,
}
use mikrotikbandwidthmonitor.Web.Wizard.Forms.{AddRequest, agent_request, type_is, set_field, shows}
use mikrotikbandwidthmonitor.Web.Wizard.{
  idle, Dialog, mount_agent, mount_details, show_step, Action, next, back, act, edit,
}

abbrev pub acts : Dialog → List Action → Option Dialog
acts d [] = some d
acts d (a ∷ later) = elim (act d a) [ none ↦ none | some d' ↦ acts d' later ]

-- A dialog that shows a form as it is when it appears.
abbrev at_step : ℕ → Dialog → Dialog
at_step n d = record d { wizard = record d.wizard { step = n }; tag_input = []; task = idle }

went_back : (d : Dialog) → d.opened ≡ true → d.wizard.step ≡ 3 → act d back ≡ some (at_step 2 d)
unfolding act show_step go_back
went_back d o s = ground arith

went_on :
    (d : Dialog)
    → d.opened ≡ true
    → d.wizard.step ≡ 2
    → act d next ≡ some (mount_details (at_step 3 d))
unfolding act show_step go_next can_go_next
went_on d o s = ground arith

same_step : (w : WizardState) → w.step ≡ 3 → record w { step = 3 } ≡ w
same_step w s = ground arith

-- The requests of an agent form that appears.
abbrev pub with_request : Dialog → List AddRequest
with_request d = elim (d.wizard.created_device_id) [
  | none ↦ agent_request d.wizard.form_data ∷ d.requests
  | some id ↦ d.requests
]

mounted :
    (d : Dialog)
    → is_agent d.wizard.form_data.connection_type ≡ true
    → ((mount_details d).wizard ≡ d.wizard)
      × ((mount_details d).install_cmd ≡ [])
      × ((mount_details d).requests ≡ with_request d)
unfolding mount_details mount_agent
mounted d a = ground arith

-- Going back from the form of an agent and on again changes nothing of the wizard's state, but the
-- command to install the agent is gone; and where the answer with the new device has not come
-- yet, the same device is requested again.
back-next_agent :
    (d : Dialog)
    → d.opened ≡ true
    → d.wizard.step ≡ 3
    → is_agent d.wizard.form_data.connection_type ≡ true
    → (d' : Dialog) × (acts d (back ∷ next ∷ []) ≡ some d')
      × (d'.wizard ≡ d.wizard)
      × (d'.install_cmd ≡ [])
      × (d'.requests ≡ with_request d)
back-next_agent d o s a =
    let (w, c, r) = mounted (at_step 3 d) a in
    (
      mount_details (at_step 3 d),
      rw (went_back d o s, acts) (rw (went_on (at_step 2 d) o refl, acts)),
      w ∙ same_step d.wizard s,
      c,
      r,
    )

-- The form of another type, chosen on the second step.
abbrev of_type : ConnectionType → Dialog → Dialog
of_type t d = record d { wizard = update_form (set_field (type_is t)) d.wizard }

chosen :
    (d : Dialog) (t : ConnectionType)
    → d.opened ≡ true
    → d.wizard.step ≡ 2
    → act d (edit (type_is t)) ≡ some (of_type t d)
unfolding act shows
chosen d t o s = ground arith

done_by :
    (t : ConnectionType) (r : Option ConnectionTestResult)
    → succeeded r ≡ true
    → details_done t r ≡ true
done_by agent r s = refl
done_by rest r s = s
done_by binary_api r s = s
done_by snmp r s = s

confirmed :
    (d : Dialog)
    → d.opened ≡ true
    → d.wizard.step ≡ 3
    → succeeded d.wizard.test_result ≡ true
    → act d next ≡ some (at_step 4 d)
unfolding act show_step go_next can_go_next
confirmed d o s r =
    ground (arith, done_by d.wizard.form_data.connection_type d.wizard.test_result r)

shows_form :
    (d : Dialog) → is_agent d.wizard.form_data.connection_type ≡ false → mount_details d ≡ d
unfolding mount_details
shows_form d a = rw a

-- A test that succeeded counts for what is chosen after it, too: from the details of a device that
-- was tested, going back, choosing any other type without an agent, and going on twice leads to the
-- last step, with the result of the old test and no new one.
pub tested_before :
    (d : Dialog) (t : ConnectionType)
    → d.opened ≡ true
    → d.wizard.step ≡ 3
    → succeeded d.wizard.test_result ≡ true
    → is_agent t ≡ false
    → (d' : Dialog) × (acts d (back ∷ edit (type_is t) ∷ next ∷ next ∷ []) ≡ some d')
      × (d'.wizard.step ≡ 4)
      × (d'.wizard.form_data.connection_type ≡ t)
      × (d'.wizard.test_result ≡ d.wizard.test_result)
unfolding set_field
tested_before d t o s r a =
    let d3 = at_step 3 (of_type t (at_step 2 d)) in
    (
      at_step 4 d3,
      rw (went_back d o s, acts)
          (rw (chosen (at_step 2 d) t o refl, acts)
            (rw (went_on (of_type t (at_step 2 d)) o refl, acts)
              (rw (shows_form d3 a) (rw (confirmed d3 o refl r, acts))))),
      refl,
      refl,
      refl,
    )
