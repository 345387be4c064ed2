-- ===== src/Web/Wizard/Reachable.antt =====
-- The dialogs of apps/web/src/components/add-device-wizard that some events lead to.
use mikrotikbandwidthmonitor.Prelude.{
  ◌≡◌, refl, subst, Bool, true, false, some, inl, inr, some_inj, arith,
}
use mikrotikbandwidthmonitor.Web.Wizard.State.{go_next, go_back}
use mikrotikbandwidthmonitor.Web.Wizard.{
  Dialog, Action, act, Reach, start, after, when, open_dialog, close_dialog, next, back,
  press_tag_key, press_test, press_finish, edit, type_tag, tested, created, enrolled, failed, saved,
  late_saved, late_failed,
}
use mikrotikbandwidthmonitor.Web.Wizard.Soundness.{
  IsSound, initial_sound, edited, Fits-edit, went_next, went_back,
}
use mikrotikbandwidthmonitor.Web.Wizard.Moves.{shown, closed, finished, tagged, tested_on}
use mikrotikbandwidthmonitor.Web.Wizard.Answers.{
  result_came, device_came, token_came, failure_came, saving_came, late_saving_came,
  late_failure_came,
}

when-some : (b : Bool) (d : Dialog) {d' : Dialog} → when b d ≡ some d' → (b ≡ true) × (d ≡ d')
when-some true d e = (refl, some_inj e)
when-some false d e = cc

-- An event that the user makes.
acted : (d : Dialog) (a : Action) {d' : Dialog} → IsSound d → act d a ≡ some d' → IsSound d'
unfolding act
acted d open_dialog {d'} (h, o, f, rs) e =
    let (offered, same) = when-some _ _ e in subst IsSound same (h, inl refl, f, rs)
acted d close_dialog {d'} s e = subst IsSound (when-some _ _ e).1 (closed d s)
acted d next {d'} (h, o, f, rs) e =
    let (offered, same) = when-some _ _ e in
    subst IsSound same
      (shown d (go_next d.wizard) (ground arith) (went_next d.wizard (ground arith) h) rs)
acted d back {d'} (h, o, f, rs) e =
    let (offered, same) = when-some _ _ e in
    subst IsSound same (shown d (go_back d.wizard) (ground arith) (went_back d.wizard h) rs)
acted d press_tag_key {d'} (h, o, f, rs) e =
    let (offered, same) = when-some _ _ e in
    subst IsSound same (tagged d (ground arith) (ground arith) (h, o, f, rs))
acted d press_test {d'} (h, o, f, rs) e =
    let (offered, same) = when-some _ _ e in
    subst IsSound same (tested_on d (ground arith) (ground arith) (h, o, f, rs))
acted d press_finish {d'} s e =
    let (offered, same) = when-some _ _ e in subst IsSound same (finished d offered s)
acted d (edit field) {d'} (h, o, f, rs) e =
    let (offered, same) = when-some _ _ e in
    subst IsSound same (
      edited d.wizard field (ground arith) h,
      inl (ground arith),
      Fits-edit d.task d.wizard field d.requests (ground arith) f,
      rs,
    )
acted d (type_tag s) {d'} (h, o, f, rs) e =
    let (offered, same) = when-some _ _ e in subst IsSound same (h, inl (ground arith), f, rs)
acted d (tested r) {d'} s e = result_came d d.task r refl s e
acted d (created id) {d'} s e = device_came d d.task id refl s e
acted d (enrolled token command) {d'} s e = token_came d d.task token command refl s e
acted d failed {d'} s e = failure_came d d.task refl s e
acted d saved {d'} s e = saving_came d d.task refl s e
acted d late_saved {d'} s e = late_saving_came d d.abandoned refl s e
acted d late_failed {d'} s e = late_failure_came d d.abandoned refl s e

pub Reach-IsSound : {d : Dialog} → Reach d → IsSound d
Reach-IsSound start = (initial_sound, inr (refl, refl), tt, tt)
Reach-IsSound (after {d} r a e) = acted d a (Reach-IsSound r) e
