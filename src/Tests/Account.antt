-- ===== src/Tests/Account.antt =====
-- Runs of the sign-up form.
use mikrotikbandwidthmonitor.Prelude.Bytes.{codes}
use mikrotikbandwidthmonitor.Prelude.{◌≡◌, refl, some, none, ◌∷◌, []}
use mikrotikbandwidthmonitor.Web.Account.{
  AccountForm, Credentials, signup_page, blank_form, submit_account, settle_account, account_event,
  ReachAccount, shown, then_account, type_email, type_password, press_send, answered, refused,
}
use mikrotikbandwidthmonitor.Web.Account.Reachable.{IsAccountSound, ReachAccount-IsAccountSound}

run : Unit {0}
unfolding account_event submit_account settle_account
run = tt

abbrev typed : Credentials
typed = record { name = []; email = codes "a@b.c"; password = codes "longenough" }

abbrev failed : AccountForm
failed = record blank_form {
  fields = typed;
  error = some (codes "Could not create account.");
  sent = typed ∷ [];
}

reached : ReachAccount signup_page failed
unfolding run
reached =
    then_account
      (then_account
        (then_account (then_account shown (type_email (codes "a@b.c")) refl)
          (type_password (codes "longenough")) refl)
        press_send refl)
      (answered (refused none)) refl

ReachAccount-IsAccountSound_example : IsAccountSound signup_page failed
ReachAccount-IsAccountSound_example = ReachAccount-IsAccountSound reached

-- A short password is not sent.
too_short :
    account_event signup_page
      (record blank_form { fields = record typed { password = codes "short" } })
      press_send
    ≡ some (record blank_form {
      fields = record typed { password = codes "short" };
      error = some (codes "Password must be at least 8 characters.");
    })
unfolding run
too_short = refl
