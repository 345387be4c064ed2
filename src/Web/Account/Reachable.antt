-- ===== src/Web/Account/Reachable.antt =====
-- The forms of apps/web/src/app/(auth) that some events lead to.

use mikrotikbandwidthmonitor.Prelude.Bytes.{Text}
use mikrotikbandwidthmonitor.Web.Account.{
  AccountPage, login_page, Credentials, Outcome, AccountForm, signup_page, send, submit_account,
  settle_account, provided, with_fields, thrown, accepted, refused, shown, AccountEvent, type_name,
  type_email, type_password, press_send, answered, account_event, ReachAccount, then_account,
}
use mikrotikbandwidthmonitor.Prelude.{
  ltb, Bool-cases, some_inj, length, All, not, inr, ◌≡◌, arith, false, Bool, some, ◌∷◌, ◌⊎◌, List,
  refl, none, ◌≤◌, [], inl, true, subst, ◌≢◌,
}

-- What is sent of the sign-up has a password of 8 characters or more, and of the login no name.
abbrev pub IsSendable : AccountPage → Credentials → Type 0
IsSendable signup_page c = 8 ≤ length c.password
IsSendable login_page c = c.name ≡ []

-- What the request that is awaited has sent.
abbrev pub IsLast : Credentials → List Credentials → Type 0
IsLast c [] = ⊥
IsLast c (d ∷ ds) = c ≡ d

-- The login page has an empty name.
abbrev pub IsNameless : AccountPage → Credentials → Type 0
IsNameless signup_page c = Unit
IsNameless login_page c = c.name ≡ []

-- An answer that came leads on, or to an error; the page shows it unless its text is empty.
abbrev pub IsAnswered : AccountForm → Type 0
IsAnswered form =
    (form.sent ≡ [])
    ⊎ ((form.loading ≡ true) ⊎ ((form.left ≡ true) ⊎ ((t : Text) × (form.error ≡ some t))))

abbrev pub IsAccountSound : AccountPage → AccountForm → Type 0
IsAccountSound page form =
    All (IsSendable page) form.sent
    × IsNameless page form.fields
    × ((form.loading ≡ false) ⊎ ((form.error ≡ none) × IsLast form.fields form.sent))
    × ((form.left ≡ false) ⊎ (form.sent ≢ []))
    × IsAnswered form

provided-some :
    (b : Bool) (form : AccountForm) {form' : AccountForm}
    → provided b form ≡ some form'
    → (b ≡ true) × (form ≡ form')
provided-some true form e = (refl, some_inj e)
provided-some false form e = cc

not-true : (b : Bool) → not b ≡ true → b ≡ false
not-true true h = cc
not-true false h = refl

typed-IsAccountSound :
    (page : AccountPage) (form : AccountForm) (c : Credentials)
    → form.loading ≡ false
    → IsNameless page c
    → IsAccountSound page form
    → IsAccountSound page (with_fields c form)
typed-IsAccountSound page form c free nameless (sent, _, awaited, left, came) =
    (sent, nameless, inl free, left, came)

sent-IsAccountSound :
    (page : AccountPage) (form : AccountForm)
    → IsSendable page form.fields
    → IsAccountSound page form
    → IsAccountSound page (send form)
sent-IsAccountSound page form sendable (sent, nameless, awaited, left, came) =
    ((sendable, sent), nameless, inr (refl, refl), inr (λ e. cc), inr (inl refl))

submitted-IsAccountSound :
    (page : AccountPage) (form : AccountForm)
    → form.loading ≡ false
    → IsAccountSound page form
    → IsAccountSound page (submit_account page form)
unfolding submit_account
submitted-IsAccountSound login_page form free (sent, nameless, awaited, left, came) =
    sent-IsAccountSound login_page form nameless (sent, nameless, awaited, left, came)
submitted-IsAccountSound signup_page form free (sent, nameless, awaited, left, came) =
    elim (Bool-cases (ltb (length form.fields.password) 8)) [
      | inl short ↦
          rw (short, submit_account) (sent, nameless, inl free, left, inr (inr (inr (_, refl))))
      | inr long ↦
          rw (long, submit_account)
            (sent-IsAccountSound signup_page form (ground arith)
              (sent, nameless, awaited, left, came))
    ]

was_sent :
    (form : AccountForm)
    → form.loading ≡ true
    → {ds : List Credentials}
    → (form.loading ≡ false) ⊎ ((form.error ≡ none) × IsLast form.fields ds)
    → ds ≢ []
was_sent form loading (inl free) e = cc
was_sent form loading {ds = []} (inr h) e = h.1
was_sent form loading {ds = d ∷ ds} (inr h) e = cc

settled-IsAccountSound :
    (page : AccountPage) (o : Outcome) (form : AccountForm)
    → form.loading ≡ true
    → IsAccountSound page form
    → IsAccountSound page (settle_account page o form)
unfolding settle_account
settled-IsAccountSound page accepted form loading (sent, nameless, awaited, left, came) =
    (sent, nameless, inl refl, inr (was_sent form loading awaited), inr (inr (inl refl)))
settled-IsAccountSound page (refused message) form loading (sent, nameless, awaited, left, came) =
    (sent, nameless, inl refl, left, inr (inr (inr (_, refl))))
settled-IsAccountSound page (thrown message) form loading (sent, nameless, awaited, left, came) =
    (sent, nameless, inl refl, left, inr (inr (inr (_, refl))))

IsNameless-email :
    (page : AccountPage) (form : AccountForm) (s : Text)
    → IsNameless page form.fields
    → IsNameless page (record form.fields { email = s })
IsNameless-email signup_page form s h = tt
IsNameless-email login_page form s h = h

IsNameless-password :
    (page : AccountPage) (form : AccountForm) (s : Text)
    → IsNameless page form.fields
    → IsNameless page (record form.fields { password = s })
IsNameless-password signup_page form s h = tt
IsNameless-password login_page form s h = h

account_event-IsAccountSound :
    (page : AccountPage) (form : AccountForm) (e : AccountEvent) {form' : AccountForm}
    → IsAccountSound page form
    → account_event page form e ≡ some form'
    → IsAccountSound page form'
unfolding account_event
account_event-IsAccountSound signup_page form (type_name s) {form'} w e =
    let (free, same) = provided-some _ _ e in
    subst (IsAccountSound signup_page) same
      (typed-IsAccountSound signup_page form _ (ground arith) tt w)
account_event-IsAccountSound login_page form (type_name s) {form'} w e = cc
account_event-IsAccountSound page form (type_email s) {form'} w e =
    let (free, same) = provided-some _ _ e in
    subst (IsAccountSound page) same
      (typed-IsAccountSound page form _ (ground arith) (IsNameless-email page form s w.1) w)
account_event-IsAccountSound page form (type_password s) {form'} w e =
    let (free, same) = provided-some _ _ e in
    subst (IsAccountSound page) same
      (typed-IsAccountSound page form _ (ground arith) (IsNameless-password page form s w.1) w)
account_event-IsAccountSound page form press_send {form'} w e =
    let (free, same) = provided-some _ _ e in
    subst (IsAccountSound page) same (submitted-IsAccountSound page form (ground arith) w)
account_event-IsAccountSound page form (answered o) {form'} w e =
    let (busy, same) = provided-some _ _ e in
    subst (IsAccountSound page) same (settled-IsAccountSound page o form busy w)

-- On every sign-up and login form that events lead to: all passwords that the sign-up sent have 8
-- characters or more (of ASCII); while a request is on its way no error is set and the fields hold
-- what it has sent; the page was left only after a request; and once a request was sent, either an
-- answer is awaited, or the page was left, or an error is set.
pub ReachAccount-IsAccountSound :
    {page : AccountPage} {form : AccountForm} → ReachAccount page form → IsAccountSound page form
ReachAccount-IsAccountSound {page = signup_page} shown = (tt, tt, inl refl, inl refl, inl refl)
ReachAccount-IsAccountSound {page = login_page} shown = (tt, refl, inl refl, inl refl, inl refl)
ReachAccount-IsAccountSound {page} (then_account {form} r e step) =
    account_event-IsAccountSound page form e (ReachAccount-IsAccountSound r) step
