-- ===== src/Rest.antt =====
-- apps/api/src/lib/routeros-rest.ts: the test of a router over its REST API. What `fetch` does is an
-- argument: the text of an error that it or the reading of the body throws, or the answer.
-- The body of an answer: a JSON object with texts, or the error that its reading throws.
pub mod Outcomes
use mikrotikbandwidthmonitor.Prelude.Bytes.{Text, codes}
use mikrotikbandwidthmonitor.Prelude.Decimal.{show_nat}
use mikrotikbandwidthmonitor.Prelude.{
  leb, if◌then◌else◌, true, [], ◌++◌, some, false, ◌&&◌, ◌∷◌, ◌||◌, Bool, ℕ, none,
}
use mikrotikbandwidthmonitor.RouterOs.Attributes.{Attrs, lookup}
use mikrotikbandwidthmonitor.RouterOs.Session.{ConnectionTestResult}
use mikrotikbandwidthmonitor.Snmp.{starts_with}

pub data Body : Type 0 where
  object : Attrs → Body
  unreadable : (message : Text) → Body

pub data Fetched : Type 0 where
  thrown : (message : Text) → Fetched
  response : (status : ℕ) (status_text : Text) → Body → Fetched

-- What the request is: its address and its header. `base64` is that of the runtime.
pub record RestRequest : Type 0 where
  pub url : Text
  pub authorization : Text

-- `res.ok`
abbrev pub is_ok : ℕ → Bool
is_ok status = leb 200 status && leb status 299

unfoldable pub rest_request :
    (Text → Text) → (ip : Text) → ℕ → (username password : Text) → RestRequest
unfolding show_nat
rest_request base64 ip port username password = record {
  url = codes "https://" ++ (ip ++ (b':' ∷ (show_nat port ++ codes "/rest/system/resource")));
  authorization = codes "Basic " ++ base64 (username ++ (b':' ∷ password));
}

abbrev pub rest_failure : Text → ConnectionTestResult
rest_failure error = record {
  success = false;
  ros_version = none;
  board_name = none;
  model = none;
  error = some error;
}

-- `s.includes(t)`
unfoldable pub contains_text : Text → Text → Bool
unfolding starts_with
contains_text t [] = starts_with t []
contains_text t (c ∷ s) = starts_with t (c ∷ s) || contains_text t s

-- The `catch`
abbrev pub caught : Text → ConnectionTestResult
caught message =
    if contains_text (codes "abort") message
    then rest_failure (codes "Connection timed out (10s)")
    else rest_failure message

abbrev of_body : Body → ConnectionTestResult
of_body (unreadable message) = caught message
of_body (object attrs) = record {
  success = true;
  ros_version = lookup (codes "version") attrs;
  board_name = lookup (codes "board-name") attrs;
  model = lookup (codes "platform") attrs;
  error = none;
}

-- `testRestConnection`
unfoldable pub test_rest_connection : Fetched → ConnectionTestResult
unfolding contains_text show_nat
test_rest_connection (thrown message) = caught message
test_rest_connection (response status status_text body) =
    if is_ok status
    then of_body body
    else rest_failure (codes "HTTP " ++ (show_nat status ++ (codes ": " ++ status_text)))
