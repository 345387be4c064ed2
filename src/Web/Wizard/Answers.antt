-- ===== src/Web/Wizard/Answers.antt =====
-- What the answers of the API leave of a dialog of apps/web/src/components/add-device-wizard.
use mikrotikbandwidthmonitor.Prelude.{
  ℕ, zero, suc, ◌≡◌, ◌≢◌, refl, subst, true, some, inl, inr, All, some_inj, arith,
}
use mikrotikbandwidthmonitor.Prelude.Bytes.{Text}
use mikrotikbandwidthmonitor.Api.Schema.{Uuid}
use mikrotikbandwidthmonitor.RouterOs.Session.{ConnectionTestResult}
use mikrotikbandwidthmonitor.Web.Wizard.{
  Task, idle, adding, saving, testing, enrolling, Dialog, handle_close, on_answer, tested, created,
  enrolled, failed, saved, late_saved, late_failed,
}
use mikrotikbandwidthmonitor.Web.Wizard.Soundness.{Fits, IsRequestSound, IsSound, initial_sound}

-- A call is on its way only while the dialog is open.
busy : (d : Dialog) → d.task ≢ idle → IsSound d → d.opened ≡ true
busy d work (h, inl o, f, rs) = o
busy d work (h, inr (new, none_on_its_way), f, rs) = absurd (work none_on_its_way)

pub result_came :
    (d : Dialog) (t : Task) (r : ConnectionTestResult) {d' : Dialog}
    → d.task ≡ t
    → IsSound d
    → on_answer d (tested r) ≡ some d'
    → IsSound d'
result_came d (testing input) r {d'} at (h, o, f, rs) e =
    let (from, to, name, done, tags) = h in
    let at_3 : d.wizard.step ≡ 3 = subst (λ t. Fits t d.wizard d.requests) at f in
    subst IsSound (some_inj (rw at at e))
      ((from, to, name, inl (omega arith), tags), inl (busy d (λ i. cc) (h, o, f, rs)), tt, rs)
result_came d idle r {d'} at s e = cc (rw at at e)
result_came d adding r {d'} at s e = cc (rw at at e)
result_came d saving r {d'} at s e = cc (rw at at e)
result_came d (enrolling id) r {d'} at s e = cc (rw at at e)

pub device_came :
    (d : Dialog) (t : Task) (id : Uuid) {d' : Dialog}
    → d.task ≡ t
    → IsSound d
    → on_answer d (created id) ≡ some d'
    → IsSound d'
device_came d adding id {d'} at (h, o, f, rs) e =
    subst IsSound (some_inj (rw at at e)) (
      h,
      inl (busy d (λ i. cc) (h, o, f, rs)),
      (subst (λ t. Fits t d.wizard d.requests) at f).0,
      rs,
    )
device_came d idle id {d'} at s e = cc (rw at at e)
device_came d (testing input) id {d'} at s e = cc (rw at at e)
device_came d saving id {d'} at s e = cc (rw at at e)
device_came d (enrolling other) id {d'} at s e = cc (rw at at e)

pub token_came :
    (d : Dialog) (t : Task) (token command : Text) {d' : Dialog}
    → d.task ≡ t
    → IsSound d
    → on_answer d (enrolled token command) ≡ some d'
    → IsSound d'
token_came d (enrolling id) token command {d'} at (h, o, f, rs) e =
    subst IsSound (some_inj (rw at at e)) (h, inl (busy d (λ i. cc) (h, o, f, rs)), tt, rs)
token_came d idle token command {d'} at s e = cc (rw at at e)
token_came d adding token command {d'} at s e = cc (rw at at e)
token_came d saving token command {d'} at s e = cc (rw at at e)
token_came d (testing input) token command {d'} at s e = cc (rw at at e)

-- The mutation failed: nothing but the task changes.
pub failure_came :
    (d : Dialog) (t : Task) {d' : Dialog}
    → d.task ≡ t
    → IsSound d
    → on_answer d failed ≡ some d'
    → IsSound d'
failure_came d idle {d'} at s e = cc (rw at at e)
failure_came d adding {d'} at (h, o, f, rs) e =
    subst IsSound (some_inj (rw at at e)) (h, inl (busy d (λ i. cc) (h, o, f, rs)), tt, rs)
failure_came d saving {d'} at (h, o, f, rs) e =
    subst IsSound (some_inj (rw at at e)) (h, inl (busy d (λ i. cc) (h, o, f, rs)), tt, rs)
failure_came d (testing input) {d'} at (h, o, f, rs) e =
    subst IsSound (some_inj (rw at at e)) (h, inl (busy d (λ i. cc) (h, o, f, rs)), tt, rs)
failure_came d (enrolling id) {d'} at (h, o, f, rs) e =
    subst IsSound (some_inj (rw at at e)) (h, inl (busy d (λ i. cc) (h, o, f, rs)), tt, rs)

-- `handleClose` needs the requests to be sound and no more.
reset-IsSound : (d : Dialog) → All IsRequestSound d.requests → IsSound (handle_close d)
unfolding handle_close
reset-IsSound d rs = (initial_sound, inr (refl, refl), tt, rs)

pub saving_came :
    (d : Dialog) (t : Task) {d' : Dialog}
    → d.task ≡ t
    → IsSound d
    → on_answer d saved ≡ some d'
    → IsSound d'
saving_came d saving {d'} at (h, o, f, rs) e =
    subst IsSound (some_inj (rw at at e)) (reset-IsSound (record d { task = idle }) rs)
saving_came d idle {d'} at s e = cc (rw at at e)
saving_came d adding {d'} at s e = cc (rw at at e)
saving_came d (testing input) {d'} at s e = cc (rw at at e)
saving_came d (enrolling id) {d'} at s e = cc (rw at at e)

pub late_saving_came :
    (d : Dialog) (n : ℕ) {d' : Dialog}
    → d.abandoned ≡ n
    → IsSound d
    → on_answer d late_saved ≡ some d'
    → IsSound d'
late_saving_came d zero {d'} at s e = cc (rw at at e)
late_saving_came d (suc n) {d'} at (h, o, f, rs) e =
    subst IsSound (some_inj (rw at at e)) (reset-IsSound (record d { abandoned = n }) rs)

pub late_failure_came :
    (d : Dialog) (n : ℕ) {d' : Dialog}
    → d.abandoned ≡ n
    → IsSound d
    → on_answer d late_failed ≡ some d'
    → IsSound d'
late_failure_came d zero {d'} at s e = cc (rw at at e)
late_failure_came d (suc n) {d'} at s e = subst IsSound (some_inj (rw at at e)) s
