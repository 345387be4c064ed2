-- ===== src/Tests/Wizard.antt =====
-- The dialog that adds a device, from its first state on.
use mikrotikbandwidthmonitor.Prelude.{true, ◌≡◌, ◌∷◌, refl, some, [], none}
use mikrotikbandwidthmonitor.Web.Wizard.State.{
  whole, initial_form, initial_state, can_go_next, go_next, go_back, WizardState,
}
use mikrotikbandwidthmonitor.Web.Wizard.Forms.{
  add_tag, name_is, type_is, set_field, shows, test_request, agent_request,
}
use mikrotikbandwidthmonitor.Web.Wizard.Returns.{acts, tested_before}
use mikrotikbandwidthmonitor.Web.Wizard.{
  adding, Dialog, initial_dialog, handle_tag_key, mount_agent, mount_details, show_step,
  handle_test, open_dialog, start, next, back, edit, act, Reach, after,
}
use mikrotikbandwidthmonitor.Web.Text.{trim, without}
use mikrotikbandwidthmonitor.Prelude.Bytes.{codes, text_eq}
use mikrotikbandwidthmonitor.Api.Config.{includes}
use mikrotikbandwidthmonitor.Api.Schema.{agent, snmp}

abbrev typed : Dialog
typed = record initial_dialog {
  opened = true;
  wizard = record initial_state { form_data = record initial_form { name = codes "r" } };
  tag_input = codes " a,b ";
}

abbrev tagged_dialog : Dialog
tagged_dialog = record typed {
  wizard = record initial_state {
    form_data = record initial_form { name = codes "r"; tags = codes "ab" ∷ [] };
  };
  tag_input = [];
}

run : Unit {0}
unfolding act shows set_field handle_tag_key add_tag trim without text_eq includes show_step
    mount_details mount_agent go_next go_back can_go_next handle_test test_request
run = tt

opened_dialog : Reach (record initial_dialog { opened = true })
unfolding run
opened_dialog = after start open_dialog refl

named : Reach (record typed { tag_input = [] })
unfolding run
named = after opened_dialog (edit (name_is (codes "r"))) refl

-- The details of a device that answered over REST.
abbrev tested_dialog : Dialog
tested_dialog = record typed {
  wizard = record initial_state {
    step = 3;
    form_data = record initial_form { name = codes "r"; ip_address = codes "10.0.0.1" };
    test_result = some (record {
      success = true;
      ros_version = none;
      board_name = none;
      model = none;
      error = none;
    });
  };
  tag_input = [];
}

tested_before_example :
    (d' : Dialog) × (acts tested_dialog (back ∷ edit (type_is snmp) ∷ next ∷ next ∷ []) ≡ some d')
    × (d'.wizard.step ≡ 4)
    × (d'.wizard.form_data.connection_type ≡ snmp)
    × (d'.wizard.test_result ≡ tested_dialog.wizard.test_result)
tested_before_example = tested_before tested_dialog snmp refl refl refl refl

-- An agent's device, named and chosen, and requested when the third step appears.
abbrev chosen : WizardState
chosen = record initial_state {
  step = 2;
  form_data = record initial_form { name = codes "r"; connection_type = agent; port = whole 0 };
}

abbrev pub requested_dialog : Dialog
requested_dialog = record initial_dialog {
  opened = true;
  wizard = record chosen { step = 3 };
  task = adding;
  requests = agent_request chosen.form_data ∷ [];
}

choosing : Reach (record initial_dialog {
  opened = true;
  wizard = record initial_state { step = 2; form_data = record initial_form { name = codes "r" } };
})
unfolding run
choosing = after named next refl

choice : Reach (record initial_dialog { opened = true; wizard = chosen })
unfolding run
choice = after choosing (edit (type_is agent)) refl

pub requesting : Reach requested_dialog
unfolding run
requesting = after choice next refl
