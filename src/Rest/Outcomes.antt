-- ===== src/Rest/Outcomes.antt =====
-- What the test of apps/api/src/lib/routeros-rest.ts makes of each outcome of its request.
use mikrotikbandwidthmonitor.Prelude.Decimal.{show_nat}
use mikrotikbandwidthmonitor.Prelude.Bytes.{Text, codes}
use mikrotikbandwidthmonitor.Prelude.{
  Bool-cases, false, some, [], ◌∷◌, ap, inr, none, ◌≤◌, ◌⊎◌, ◌≡◌, true, refl, inl, arith, ◌++◌,
}
use mikrotikbandwidthmonitor.RouterOs.Attributes.{lookup}
use mikrotikbandwidthmonitor.RouterOs.Session.{ConnectionTestResult}
use mikrotikbandwidthmonitor.Snmp.{starts_with}
use mikrotikbandwidthmonitor.Rest.{
  object, unreadable, Fetched, thrown, response, contains_text, caught, test_rest_connection, Body,
  is_ok,
}

-- An answer that counts: its status says so, and its body was read.
abbrev pub IsGood : Fetched → Type 0
IsGood (thrown message) = ⊥
IsGood (response status status_text (unreadable message)) = ⊥
IsGood (response status status_text (object attrs)) = (200 ≤ status) × (status ≤ 299)

-- `message` has the text `abort` in it.
abbrev pub SaysAbort : Text → Type 0
SaysAbort message = (front back : Text) × (message ≡ front ++ (codes "abort" ++ back))

-- The text for an error that was thrown: that of a timeout where it says `abort`, and otherwise its own.
abbrev pub IsReported : (message e : Text) → Type 0
IsReported message e =
    (SaysAbort message × (e ≡ codes "Connection timed out (10s)"))
    ⊎ ((¬ SaysAbort message) × (e ≡ message))

abbrev pub IsReasonOfBody : Body → Text → Type 0
IsReasonOfBody (unreadable message) e = IsReported message e
IsReasonOfBody (object attrs) e = ⊥

-- Why a test fails: what was thrown, the status, or what the reading of the body threw.
abbrev pub IsReason : Fetched → Text → Type 0
IsReason (thrown message) e = IsReported message e
IsReason (response status status_text body) e =
    ((¬ ((200 ≤ status) × (status ≤ 299)))
      × (e ≡ codes "HTTP " ++ (show_nat status ++ (codes ": " ++ status_text))))
    ⊎ ((200 ≤ status) × (status ≤ 299) × IsReasonOfBody body e)

-- The properties of the router, as its body has them.
abbrev pub HasProperties : Fetched → ConnectionTestResult → Type 0
HasProperties (response status status_text (object attrs)) r =
    (r.ros_version ≡ lookup (codes "version") attrs)
    × (r.board_name ≡ lookup (codes "board-name") attrs)
    × (r.model ≡ lookup (codes "platform") attrs)
HasProperties _ r = ⊥

-- The two outcomes of the test.
abbrev pub Succeeds : Fetched → Type 0
Succeeds f =
    IsGood f
    × ((test_rest_connection f).success ≡ true)
    × ((test_rest_connection f).error ≡ none)
    × HasProperties f (test_rest_connection f)

abbrev pub IsFailure : ConnectionTestResult → Text → Type 0
IsFailure r e =
    (r.success ≡ false)
    × (r.error ≡ some e)
    × (r.ros_version ≡ none)
    × (r.board_name ≡ none)
    × (r.model ≡ none)

abbrev pub Fails : Fetched → Type 0
Fails f = (¬ IsGood f) × ((e : Text) × IsReason f e × IsFailure (test_rest_connection f) e)

starts_with-split : (t s : Text) → starts_with t s ≡ true → (back : Text) × (s ≡ t ++ back)
unfolding starts_with
starts_with-split [] s h = (s, refl)
starts_with-split (c ∷ t) [] h = cc
starts_with-split (c ∷ t) (d ∷ s) h =
    let (back, e) = starts_with-split t s (ground arith) in (back, ground arith)

starts_with-append : (t back : Text) → starts_with t (t ++ back) ≡ true
unfolding starts_with
starts_with-append [] back = refl
starts_with-append (c ∷ t) back = ground (arith, starts_with-append t back)

contains_text-split :
    (t s : Text) → contains_text t s ≡ true → (front back : Text) × (s ≡ front ++ (t ++ back))
unfolding contains_text
contains_text-split t [] h = let (back, e) = starts_with-split t [] h in ([], back, e)
contains_text-split t (c ∷ s) h = elim (Bool-cases (starts_with t (c ∷ s))) [
  | inl here ↦ let (back, e) = starts_with-split t (c ∷ s) here in ([], back, e)
  | inr later ↦
      let (front, back, e) = contains_text-split t s (ground arith) in
      (c ∷ front, back, ap (λ l. c ∷ l) e)
]

contains_text-append : (t front back : Text) → contains_text t (front ++ (t ++ back)) ≡ true
unfolding contains_text
contains_text-append [] [] [] = refl
contains_text-append [] [] (d ∷ back) = refl
contains_text-append (c ∷ t) [] back = ground (arith, starts_with-append (c ∷ t) back)
contains_text-append t (d ∷ front) back = ground (arith, contains_text-append t front back)

caught-IsReported :
    (message : Text) → (e : Text) × IsReported message e × IsFailure (caught message) e
caught-IsReported message = elim (Bool-cases (contains_text (codes "abort") message)) [
  | inl late ↦ (
    codes "Connection timed out (10s)",
    inl (contains_text-split (codes "abort") message late, refl),
    rw late (refl, refl, refl, refl, refl),
  )
  | inr other ↦ (
    message,
    inr (
      λ h.
          let (front, back, e) = h in
          let found = contains_text-append (codes "abort") front back in
          cc (ap (contains_text (codes "abort")) e),
      refl,
    ),
    rw other (refl, refl, refl, refl, refl),
  )
]

-- If the router answered with a status of 200 to 299 and a body that could be read, the test
-- reports a success without an error, with the version, the board and the platform of the body.
-- Otherwise it reports a failure without any of them, and with the reason: `HTTP`, the status and
-- its text where the status is another; and where the request or the reading of the body threw,
-- `Connection timed out (10s)` if the message says `abort`, and else the message.
pub test_rest_connection-IsGood : (f : Fetched) → Succeeds f ⊎ Fails f
unfolding test_rest_connection
test_rest_connection-IsGood (thrown message) = inr (λ h. h, caught-IsReported message)
test_rest_connection-IsGood (response status status_text body) = elim (Bool-cases (is_ok status)) [
  | inr bad ↦ inr (
    not_ok body (λ l m. ground arith),
    (
      codes "HTTP " ++ (show_nat status ++ (codes ": " ++ status_text)),
      inl (λ h. let (l, m) = h in ground arith, refl),
      rw (bad, test_rest_connection) (refl, refl, refl, refl, refl),
    ),
  )
  | inl good ↦ read body (ground arith) (ground arith) good
]
  where
    not_ok :
        (b : Body) → (200 ≤ status → status ≤ 299 → ⊥) → ¬ IsGood (response status status_text b)
    not_ok (unreadable message) n h = h
    not_ok (object attrs) n (l, m) = n l m

    read :
        (b : Body)
        → 200 ≤ status
        → status ≤ 299
        → is_ok status ≡ true
        → Succeeds (response status status_text b) ⊎ Fails (response status status_text b)
    read (unreadable message) l m good =
        let (e, why, failure) = caught-IsReported message in
        inr (λ h. h, (e, inr (l, m, why), rw (good, test_rest_connection) failure))
    read (object attrs) l m good = inl (
      (l, m),
      rw (good, test_rest_connection) refl,
      rw (good, test_rest_connection) refl,
      rw (good, test_rest_connection) (refl, refl, refl),
    )
