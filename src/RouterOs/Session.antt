-- ===== src/RouterOs/Session.antt =====
-- `collectRouterMetrics` and `testBinaryApiConnection` of apps/api/src/lib/routeros-api.ts. The
-- socket, the timer and the promise are a state; the callbacks are functions on it, called by the
-- events of the runtime. A callback that does not return is `none`.
pub mod Laws
pub mod Promise
pub mod Conversation
use Prim.Native.String.{String}
use mikrotikbandwidthmonitor.Prelude.{
  ℕ, ◌+◌, Bool, true, false, ◌&&◌, ◌||◌, Option, none, some, List, [], ◌∷◌, ◌++◌, if◌then◌else◌,
}
use mikrotikbandwidthmonitor.Prelude.Int.{pos}
use mikrotikbandwidthmonitor.Prelude.Bytes.{Buffer, Text, codes, text_eq}
use mikrotikbandwidthmonitor.RouterOs.Wire.{Decoded, encode_sentence, decode_words}
use mikrotikbandwidthmonitor.RouterOs.Attributes.{Attrs, lookup, words_to_attrs}
use mikrotikbandwidthmonitor.RouterOs.Uptime.{Number, nan, int, parse_int, parse_uptime}

pub record Interface : Type 0 where
  pub name : Text
  pub rx_bytes : Number
  pub tx_bytes : Number
  pub running : Bool

-- `undefined` is `none`.
pub record RouterOsMetrics : Type 0 where
  pub success : Bool
  pub ros_version : Option Text
  pub board_name : Option Text
  pub model : Option Text
  pub cpu_load : Option Number
  pub free_memory : Option Number
  pub total_memory : Option Number
  pub uptime : Option ℕ
  pub interfaces : Option (List Interface)
  pub error : Option Text

-- `{ success: false, error }`
abbrev pub failed : Text → RouterOsMetrics
failed message = record {
  success = false;
  ros_version = none;
  board_name = none;
  model = none;
  cpu_load = none;
  free_memory = none;
  total_memory = none;
  uptime = none;
  interfaces = none;
  error = some message;
}

-- `{ success: false, interfaces: [] }`
abbrev pub blank : RouterOsMetrics
blank = record {
  success = false;
  ros_version = none;
  board_name = none;
  model = none;
  cpu_load = none;
  free_memory = none;
  total_memory = none;
  uptime = none;
  interfaces = some [];
  error = none;
}

pub data Phase : Type 0 where
  login resource interface : Phase

pub record Session : Type 0 where
  pub buf : Buffer
  pub phase : Phase
  pub result : RouterOsMetrics
  pub resolved : Option RouterOsMetrics
  pub written : List Buffer
  pub destroyed : Bool
  pub timer : Bool

pub record Credentials : Type 0 where
  pub username : Text
  pub password : Text

abbrev pub start : Session
start = record {
  buf = [];
  phase = login;
  result = blank;
  resolved = none;
  written = [];
  destroyed = false;
  timer = true;
}

-- The first call of `resolve` decides the promise.
abbrev pub settle : Option RouterOsMetrics → RouterOsMetrics → Option RouterOsMetrics
settle none m = some m
settle (some first) m = some first

abbrev pub resolve : RouterOsMetrics → Session → Session
resolve m s = record s { resolved = settle s.resolved m }

-- `clearTimeout(timeout); socket.destroy(); resolve(m)`
abbrev pub finish : RouterOsMetrics → Session → Session
finish m s = resolve m (record s { destroyed = true; timer = false })

abbrev pub write : Buffer → Session → Session
write bytes s = record s { written = s.written ++ (bytes ∷ []) }

abbrev pub login_sentence : Credentials → List Text
login_sentence c =
    codes "/login" ∷ (codes "=name=" ++ c.username) ∷ (codes "=password=" ++ c.password) ∷ []

abbrev pub resource_sentence : List Text
resource_sentence = codes "/system/resource/print" ∷ []

abbrev pub interface_sentence : List Text
interface_sentence = codes "/interface/print" ∷ []

-- `words[0] === tag`
unfoldable pub is_tag : List Text → Text → Bool
unfolding text_eq
is_tag [] tag = false
is_tag (w ∷ ws) tag = text_eq w tag

-- `s || d`
abbrev pub or_text : Option Text → Text → Text
or_text none d = d
or_text (some []) d = d
or_text (some (c ∷ s)) d = c ∷ s

-- `s ? parseInt(s, 10) : undefined`
abbrev pub optional_int : Option Text → Option Number
optional_int none = none
optional_int (some []) = none
optional_int (some (c ∷ s)) = some (parse_int (c ∷ s))

abbrev pub with_resource : Attrs → RouterOsMetrics → RouterOsMetrics
with_resource attrs m = record m {
  success = true;
  ros_version = lookup (codes "version") attrs;
  board_name = lookup (codes "board-name") attrs;
  model = some (or_text (lookup (codes "platform") attrs) (codes "MikroTik"));
  cpu_load = optional_int (lookup (codes "cpu-load") attrs);
  free_memory = optional_int (lookup (codes "free-memory") attrs);
  total_memory = optional_int (lookup (codes "total-memory") attrs);
  uptime = parse_uptime (lookup (codes "uptime") attrs);
}

-- `result.interfaces!.push(i)`; `interfaces` is set from the start.
abbrev pub push_interface : Interface → RouterOsMetrics → RouterOsMetrics
push_interface i m = elim (m.interfaces) [
  | none ↦ m
  | some is ↦ record m { interfaces = some (is ++ (i ∷ [])) }
]

abbrev pub is_true : Option Text → Bool
is_true none = false
is_true (some s) = text_eq s (codes "true")

abbrev pub interface_of : Text → Attrs → Interface
interface_of name attrs = record {
  name = name;
  rx_bytes = parse_int (or_text (lookup (codes "rx-byte") attrs) (codes "0"));
  tx_bytes = parse_int (or_text (lookup (codes "tx-byte") attrs) (codes "0"));
  running = is_true (lookup (codes "running") attrs);
}

-- `if (attrs['name'])`
abbrev pub with_interface : Attrs → Option Text → RouterOsMetrics → RouterOsMetrics
with_interface attrs none m = m
with_interface attrs (some []) m = m
with_interface attrs (some (c ∷ s)) m = push_interface (interface_of (c ∷ s) attrs) m

-- `Login failed — invalid credentials`, with the dash in UTF-8
abbrev pub login_failed : Text
login_failed = codes "Login failed " ++ ((0xe2 ∷ 0x80 ∷ 0x94 ∷ []) ++ codes " invalid credentials")

-- The body of the loop over sentences: the new state, and whether the callback returns.
abbrev pub in_login : List Text → Session → Session × Bool
in_login words s =
    if is_tag words (codes "!trap") || is_tag words (codes "!fatal")
    then (finish (failed login_failed) s, true)
    else if is_tag words (codes "!done")
    then (write (encode_sentence resource_sentence) (record s { phase = resource }), false)
    else (s, false)

abbrev pub read_resource : List Text → Session → Session
read_resource words s =
    if is_tag words (codes "!re")
    then record s { result = with_resource (words_to_attrs words) s.result }
    else s

abbrev pub in_resource : List Text → Session → Session × Bool
in_resource words s =
    let s' = read_resource words s in
    if is_tag words (codes "!done")
    then (write (encode_sentence interface_sentence) (record s' { phase = interface }), false)
    else (s', false)

abbrev pub read_interface : List Text → Session → Session
read_interface words s =
    let attrs = words_to_attrs words in
    if is_tag words (codes "!re")
    then record s { result = with_interface attrs (lookup (codes "name") attrs) s.result }
    else s

abbrev pub in_interface : List Text → Session → Session × Bool
in_interface words s =
    let s' = read_interface words s in
    if is_tag words (codes "!done") then (finish s'.result s', true) else (s', false)

abbrev pub in_phase : Phase → List Text → Session → Session × Bool
in_phase login words s = in_login words s
in_phase resource words s = in_resource words s
in_phase interface words s = in_interface words s

unfoldable pub on_sentence : List Text → Session → Session × Bool
on_sentence words s = in_phase s.phase words s

unfoldable pub on_sentences : List (List Text) → Session → Session
on_sentences [] s = s
on_sentences (words ∷ rest) s =
    let (s', returns) = on_sentence words s in
    elim returns [ true ↦ s' | false ↦ on_sentences rest s' ]

-- `socket.on('data', …)`
unfoldable pub on_data : Buffer → Session → Option Session
on_data chunk s = elim (decode_words (s.buf ++ chunk)) [
  | none ↦ none
  | some d ↦ some (on_sentences d.sentences (record s { buf = d.remaining }))
]

-- The callback of `setTimeout`.
abbrev pub on_timeout : Session → Session
on_timeout s = resolve (failed (codes "Connection timed out (10s)")) (record s { destroyed = true })

-- `socket.on('error', …)`
abbrev pub on_error : Text → Session → Session
on_error message s = resolve (failed message) (record s { timer = false })

-- The callback of `net.createConnection`.
abbrev pub on_connect : Credentials → Session → Session
on_connect c s = write (encode_sentence (login_sentence c)) s

-- What the runtime can call once the connection stands.
pub data Event : Type 0 where
  timeout : Event
  received : Buffer → Event
  failure : Text → Event

-- A socket that is destroyed gives no data.
unfoldable pub handle : Event → Session → Option Session
handle timeout s = some (on_timeout s)
handle (received chunk) s = elim s.destroyed [ true ↦ some s | false ↦ on_data chunk s ]
handle (failure message) s = some (on_error message s)

-- A run of events; `none` when a callback does not return.
unfoldable pub handle_all : List Event → Session → Option Session
handle_all [] s = some s
handle_all (e ∷ es) s = elim (handle e s) [ none ↦ none | some s' ↦ handle_all es s' ]

-- `ConnectionTestResult`
pub record ConnectionTestResult : Type 0 where
  pub success : Bool
  pub ros_version : Option Text
  pub board_name : Option Text
  pub model : Option Text
  pub error : Option Text

-- The `then` of `testBinaryApiConnection`.
unfoldable pub connection_test_result : RouterOsMetrics → ConnectionTestResult
connection_test_result m = record {
  success = m.success;
  ros_version = m.ros_version;
  board_name = m.board_name;
  model = m.model;
  error = m.error;
}
