-- ===== src/Snmp/Session.antt =====
-- `testSnmpConnection` of apps/api/src/lib/snmp-test.ts: the socket, the timer and the promise as a
-- state, and a function for each callback.
use mikrotikbandwidthmonitor.Prelude.{
  ℕ, ◌≡◌, refl, ap, Bool, true, false, Option, none, some, List, [], ◌∷◌, ◌++◌,
}
use mikrotikbandwidthmonitor.Prelude.Bytes.{Buffer, Text, codes}
use mikrotikbandwidthmonitor.Snmp.{build_snmp_v2c_get_request, parse_snmp_response, ros_version}

pub record SnmpTestResult : Type 0 where
  pub success : Bool
  pub sys_descr : Option Text
  pub ros_version : Option Text
  pub error : Option Text

pub data Version : Type 0 where
  v2c v3 : Version

abbrev pub refused : Text → SnmpTestResult
refused message = record {
  success = false;
  sys_descr = none;
  ros_version = none;
  error = some message;
}

-- `SNMP v3 not yet supported — use v2c`, with the dash in UTF-8
abbrev pub not_supported : Text
not_supported =
    codes "SNMP v3 not yet supported " ++ ((0xe2 ∷ 0x80 ∷ 0x94 ∷ []) ++ codes " use v2c")

abbrev pub described : Text → SnmpTestResult
described text = record {
  success = true;
  sys_descr = some text;
  ros_version = ros_version text;
  error = none;
}

abbrev pub undescribed : SnmpTestResult
undescribed = record {
  success = true;
  sys_descr = some (codes "(empty response)");
  ros_version = none;
  error = none;
}

-- `if (!sysDescr) …`
abbrev pub result_of : Option Text → SnmpTestResult
result_of none = undescribed
result_of (some []) = undescribed
result_of (some (c ∷ s)) = described (c ∷ s)

pub record SnmpState : Type 0 where
  pub resolved : Option SnmpTestResult
  pub closed : Bool
  pub timer : Bool
  pub sent : List Buffer

abbrev settle : Option SnmpTestResult → SnmpTestResult → Option SnmpTestResult
settle none r = some r
settle (some first) r = some first

abbrev pub resolve : SnmpTestResult → SnmpState → SnmpState
resolve r s = record s { resolved = settle s.resolved r }

-- The call itself; `request_id` is the random one.
unfoldable pub test_snmp_connection : Text → Version → ℕ → SnmpState
test_snmp_connection community v3 request_id = record {
  resolved = some (refused not_supported);
  closed = false;
  timer = false;
  sent = [];
}
test_snmp_connection community v2c request_id = record {
  resolved = none;
  closed = false;
  timer = true;
  sent = build_snmp_v2c_get_request community request_id ∷ [];
}

pub data SnmpEvent : Type 0 where
  timeout : SnmpEvent
  message : Buffer → SnmpEvent
  failure : Text → SnmpEvent

unfoldable pub on_event : SnmpEvent → SnmpState → SnmpState
on_event timeout s =
    resolve (refused (codes "SNMP request timed out (5s)")) (record s { closed = true })
on_event (message msg) s =
    resolve (result_of (parse_snmp_response msg)) (record s { closed = true; timer = false })
on_event (failure text) s = resolve (refused text) (record s { closed = true; timer = false })

unfoldable pub on_events : List SnmpEvent → SnmpState → SnmpState
on_events [] s = s
on_events (e ∷ es) s = on_events es (on_event e s)

-- What a failure answers: no success, and the text that says why.
abbrev pub failed_answer : Text → SnmpTestResult
failed_answer why = record {
  success = false;
  sys_descr = none;
  ros_version = none;
  error = some why;
}

-- What a datagram answers, by the text that is found in it: success, in any case.
abbrev pub datagram_answer : Option Text → SnmpTestResult
datagram_answer none = record {
  success = true;
  sys_descr = some (codes "(empty response)");
  ros_version = none;
  error = none;
}
datagram_answer (some []) = record {
  success = true;
  sys_descr = some (codes "(empty response)");
  ros_version = none;
  error = none;
}
datagram_answer (some (c ∷ s)) = record {
  success = true;
  sys_descr = some (c ∷ s);
  ros_version = ros_version (c ∷ s);
  error = none;
}

-- What an event answers.
abbrev pub answer_of : SnmpEvent → SnmpTestResult
answer_of timeout = failed_answer (codes "SNMP request timed out (5s)")
answer_of (message msg) = datagram_answer (parse_snmp_response msg)
answer_of (failure text) = failed_answer text

abbrev pub is_datagram : SnmpEvent → Bool
is_datagram (message msg) = true
is_datagram _ = false

result_of-datagram_answer : (o : Option Text) → result_of o ≡ datagram_answer o
result_of-datagram_answer none = refl
result_of-datagram_answer (some []) = refl
result_of-datagram_answer (some (c ∷ s)) = refl

datagram_succeeds : (o : Option Text) → (datagram_answer o).success ≡ true
datagram_succeeds none = refl
datagram_succeeds (some []) = refl
datagram_succeeds (some (c ∷ s)) = refl

answer_of-success : (e : SnmpEvent) → (answer_of e).success ≡ is_datagram e
answer_of-success timeout = refl
answer_of-success (message msg) = datagram_succeeds (parse_snmp_response msg)
answer_of-success (failure text) = refl

stays_resolved :
    (es : List SnmpEvent) (s : SnmpState) {r : SnmpTestResult}
    → s.resolved ≡ some r
    → (on_events es s).resolved ≡ some r
unfolding on_events on_event
stays_resolved [] s h = h
stays_resolved (timeout ∷ es) s h = stays_resolved es _ (rw h refl)
stays_resolved (message msg ∷ es) s h = stays_resolved es _ (rw h refl)
stays_resolved (failure text ∷ es) s h = stays_resolved es _ (rw h refl)

on_events-first :
    (community : Text) (request_id : ℕ) (e : SnmpEvent) (es : List SnmpEvent)
    → (on_events (e ∷ es) (test_snmp_connection community v2c request_id)).resolved
      ≡ some (answer_of e)
unfolding on_events on_event test_snmp_connection
on_events-first community request_id timeout es = stays_resolved es _ refl
on_events-first community request_id (message msg) es =
    stays_resolved es _ (ap some (result_of-datagram_answer (parse_snmp_response msg)))
on_events-first community request_id (failure text) es = stays_resolved es _ refl

-- The first event decides the test, whatever comes later: a datagram, any datagram at all, is a
-- success, with the text that is found in it and the version that the text names, or with
-- `(empty response)`; the timeout and a socket error are failures. With v3 no event changes the
-- refusal, and nothing is sent.
pub first_event_decides :
    (community : Text) (request_id : ℕ) (e : SnmpEvent) (es : List SnmpEvent)
    → ((on_events (e ∷ es) (test_snmp_connection community v2c request_id)).resolved
        ≡ some (answer_of e))
      × ((answer_of e).success ≡ is_datagram e)
      × ((on_events (e ∷ es) (test_snmp_connection community v3 request_id)).resolved
          ≡ some (failed_answer not_supported))
      × ((test_snmp_connection community v3 request_id).sent ≡ [])
unfolding test_snmp_connection
first_event_decides community request_id e es = (
  on_events-first community request_id e es,
  answer_of-success e,
  stays_resolved (e ∷ es) (test_snmp_connection community v3 request_id) refl,
  refl,
)
