-- ===== src/Web/Account.antt =====
-- The forms of apps/web/src/app/(auth): signup/page.tsx and login/page.tsx. The browser checks
-- nothing of them (`noValidate`). Lengths are those of ASCII texts.
pub mod Reachable
use mikrotikbandwidthmonitor.Prelude.{
  ltb, if◌then◌else◌, length, not, ◌≡◌, false, Bool, some, ◌∷◌, List, none, [], ◌&&◌, Option, true,
}
use mikrotikbandwidthmonitor.Prelude.Bytes.{Text, codes}

-- What comes of `fetch`: a status that is ok or not, then with the message of its body if there is
-- one (none where the body cannot be read), or something that was thrown, then with its message if
-- it is an `Error`.
pub data Outcome : Type 0 where
  accepted : Outcome
  refused : (message : Option Text) → Outcome
  thrown : (message : Option Text) → Outcome

abbrev pub or_message : Option Text → Text → Text
or_message none s = s
or_message (some t) s = t

-- The body of `fetch`
pub record Credentials : Type 0 where
  pub name : Text
  pub email : Text
  pub password : Text

-- `fields` is what the inputs hold, `sent` the requests that were made, the last first, and
-- `left` whether the page was left for /devices.
pub record AccountForm : Type 0 where
  pub fields : Credentials
  pub error : Option Text
  pub loading : Bool
  pub sent : List Credentials
  pub left : Bool

abbrev pub blank_form : AccountForm
blank_form = record {
  fields = record { name = []; email = []; password = [] };
  error = none;
  loading = false;
  sent = [];
  left = false;
}

-- The two pages: the login has no name to type, and does not look at the password.
pub data AccountPage : Type 0 where
  signup_page login_page : AccountPage

abbrev pub failure_text : AccountPage → Text
failure_text signup_page = codes "Could not create account."
failure_text login_page = codes "Invalid email or password."

abbrev pub send : AccountForm → AccountForm
send form = record form { error = none; loading = true; sent = form.fields ∷ form.sent }

-- `handleSubmit`, up to its `await`
unfoldable pub submit_account : AccountPage → AccountForm → AccountForm
submit_account signup_page form =
    if ltb (length form.fields.password) 8
    then record form { error = some (codes "Password must be at least 8 characters.") }
    else send form
submit_account login_page form = send form

-- `handleSubmit`, from its `await` to its end
unfoldable pub settle_account : AccountPage → Outcome → AccountForm → AccountForm
settle_account page accepted form = record form { left = true; loading = false }
settle_account page (refused message) form = record form {
  error = some (or_message message (failure_text page));
  loading = false;
}
settle_account page (thrown message) form = record form {
  error = some (or_message message (codes "Something went wrong."));
  loading = false;
}

pub data AccountEvent : Type 0 where
  type_name type_email type_password : Text → AccountEvent
  press_send : AccountEvent
  answered : Outcome → AccountEvent

abbrev pub provided : Bool → AccountForm → Option AccountForm
provided true form = some form
provided false form = none

abbrev pub with_fields : Credentials → AccountForm → AccountForm
with_fields c form = record form { fields = c }

abbrev pub has_name : AccountPage → Bool
has_name signup_page = true
has_name login_page = false

-- One event; `none` where the page does not offer it. The inputs and the button are disabled while
-- a request is on its way.
unfoldable pub account_event : AccountPage → AccountForm → AccountEvent → Option AccountForm
unfolding submit_account settle_account
account_event page form (type_name s) =
    provided (has_name page && not form.loading)
      (with_fields (record form.fields { name = s }) form)
account_event page form (type_email s) =
    provided (not form.loading) (with_fields (record form.fields { email = s }) form)
account_event page form (type_password s) =
    provided (not form.loading) (with_fields (record form.fields { password = s }) form)
account_event page form press_send = provided (not form.loading) (submit_account page form)
account_event page form (answered o) = provided form.loading (settle_account page o form)

-- The forms that some events lead to.
pub data ReachAccount (page : AccountPage) : AccountForm → Type 0 where
  shown : ReachAccount page blank_form
  then_account :
      {form form' : AccountForm}
      → ReachAccount page form
      → (e : AccountEvent) → account_event page form e ≡ some form'
      → ReachAccount page form'
