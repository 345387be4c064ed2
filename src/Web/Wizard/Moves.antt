-- ===== src/Web/Wizard/Moves.antt =====
-- What the handlers of apps/web/src/components/add-device-wizard keep.
use mikrotikbandwidthmonitor.Prelude.{
  ◌≡◌, refl, true, not, ◌&&◌, [], inl, inr, All, Bool-cases, ◌==◌, arith, Option-cases,
}
use mikrotikbandwidthmonitor.Web.Text.{trim, filled_text}
use mikrotikbandwidthmonitor.Web.Wizard.State.{WizardState, is_agent}
use mikrotikbandwidthmonitor.Web.Wizard.Tags.{add_tag-AreTags}
use mikrotikbandwidthmonitor.Web.Wizard.{
  idle, Dialog, handle_tag_key, mount_agent, mount_details, show_step, handle_close, handle_test,
  handle_finish, is_saving,
}
use mikrotikbandwidthmonitor.Web.Wizard.Soundness.{
  IsNamed, IsStateSound, IsRequestSound, IsSound, initial_sound, Fits-first,
}

-- An agent form that has no device sends a request that is sound.
mounted_agent :
    (d : Dialog)
    → IsStateSound d.wizard
    → d.wizard.step ≡ 3
    → is_agent d.wizard.form_data.connection_type ≡ true
    → d.opened ≡ true
    → All IsRequestSound d.requests
    → IsSound (mount_agent d)
unfolding mount_agent
mounted_agent d h at_3 by_agent o rs = elim (Option-cases d.wizard.created_device_id) [
  | inr (id, old) ↦ rw (old, mount_agent) (h, inl o, tt, rs)
  | inl new ↦
      let named : IsNamed d.wizard.form_data.name = ground arith in
      rw (new, mount_agent)
        (h, inl o, (at_3, by_agent, (refl, refl, refl)), ((named, inl (refl, refl)), rs))
]

pub shown :
    (d : Dialog) (w : WizardState)
    → d.opened ≡ true
    → IsStateSound w
    → All IsRequestSound d.requests
    → IsSound (show_step w d)
unfolding show_step mount_details
shown d w o h rs = elim (Bool-cases (w.step == 3)) [
  | inr other ↦ rw (other, show_step) (h, inl o, tt, rs)
  | inl details ↦ elim (Bool-cases (is_agent w.form_data.connection_type)) [
    | inr direct ↦ rw (details, show_step) (rw (direct, mount_details) (h, inl o, tt, rs))
    | inl by_agent ↦
        rw (details, show_step)
          (rw (by_agent, mount_details)
            (mounted_agent (record d { wizard = w; tag_input = []; task = idle }) h (ground arith)
              by_agent o rs))
  ]
]

pub closed : (d : Dialog) → IsSound d → IsSound (handle_close d)
unfolding handle_close
closed d (h, o, f, rs) = (initial_sound, inr (refl, refl), tt, rs)

pub finished :
    (d : Dialog)
    → (d.opened && (d.wizard.step == 4 && not (is_saving d.task))) ≡ true
    → IsSound d
    → IsSound (handle_finish d)
unfolding handle_finish
finished d e (h, o, f, rs) = elim (Bool-cases (is_agent d.wizard.form_data.connection_type)) [
  | inl by_agent ↦ rw (by_agent, handle_finish) (closed d (h, o, f, rs))
  | inr direct ↦
      let opened : d.opened ≡ true = ground arith in
      let at_4 : d.wizard.step ≡ 4 = ground arith in
      let named : IsNamed d.wizard.form_data.name = ground arith in
      rw (direct, handle_finish)
        (
          h,
          inl opened,
          (at_4, (refl, refl, refl, refl)),
          ((named, inr (direct, (d.wizard.form_data.ip_address, refl))), rs),
        )
]

pub tagged :
    (d : Dialog) → d.opened ≡ true → d.wizard.step ≡ 1 → IsSound d → IsSound (handle_tag_key d)
unfolding handle_tag_key
tagged d o at_1 (h, _, f, rs) = elim (Bool-cases (filled_text (trim d.tag_input))) [
  | inr blank ↦ rw (blank, handle_tag_key) (h, inl o, f, rs)
  | inl some_tag ↦
      let (from, to, name, done, tags) = h in
      rw (some_tag, handle_tag_key)
        (
          (from, to, name, done, add_tag-AreTags d.tag_input d.wizard.form_data.tags tags),
          inl o,
          Fits-first d.task d.wizard _ d.requests at_1 f,
          rs,
        )
]

pub tested_on :
    (d : Dialog) → d.opened ≡ true → d.wizard.step ≡ 3 → IsSound d → IsSound (handle_test d)
unfolding handle_test
tested_on d o at_3 (h, _, f, rs) =
    let (from, to, name, done, tags) = h in
    ((from, to, name, inl (omega arith), tags), inl o, at_3, rs)
