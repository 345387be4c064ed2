-- ===== src/RouterOs/Session/Conversation.antt =====
-- A whole conversation with a router, from the bytes that it sends to the metrics that
-- `collectRouterMetrics` (apps/api/src/lib/routeros-api.ts) answers with.
use mathlib.Core.List.{append-nil, append_assoc}
use mikrotikbandwidthmonitor.Prelude.{
  ◌≡◌, refl, Bool, true, false, ◌∙◌, ap, sym, Option, none, some, List, [], ◌∷◌, ◌++◌, map, All,
}
use mikrotikbandwidthmonitor.Prelude.Bytes.{Text, codes, text_eq}
use mikrotikbandwidthmonitor.RouterOs.Wire.{encode_sentence, decode_words}
use mikrotikbandwidthmonitor.RouterOs.Attributes.{Attrs, lookup, words_to_attrs}
use mikrotikbandwidthmonitor.RouterOs.Reading.{below_f0-IsTame}
use mikrotikbandwidthmonitor.RouterOs.RoundTrip.{IsSentence, stream, decode_words-stream}
use mikrotikbandwidthmonitor.RouterOs.Uptime.{Number, parse_int, parse_uptime}
use mikrotikbandwidthmonitor.RouterOs.Session.{
  or_text, optional_int, is_true, RouterOsMetrics, Interface, interface, Session, Credentials,
  start, blank, is_tag, interface_of, with_resource, with_interface, on_sentence, on_sentences,
  on_connect, on_data, write, resource_sentence, interface_sentence,
}

-- The reply sentences `!re` with attributes, and `!done`.
abbrev pub re : List Text → List Text
re row = codes "!re" ∷ row

abbrev pub done : List Text
done = codes "!done" ∷ []

-- A counter, 0 where the row has none or an empty one.
abbrev pub counter : Option Text → Number
counter none = parse_int (codes "0")
counter (some []) = parse_int (codes "0")
counter (some (c ∷ s)) = parse_int (c ∷ s)

abbrev pub says_true : Option Text → Bool
says_true none = false
says_true (some s) = text_eq s (codes "true")

-- The interface that a row with this name is for.
abbrev pub row_interface : Text → Attrs → Interface
row_interface name attrs = record {
  name = name;
  rx_bytes = counter (lookup (codes "rx-byte") attrs);
  tx_bytes = counter (lookup (codes "tx-byte") attrs);
  running = says_true (lookup (codes "running") attrs);
}

abbrev named : Attrs → Option Text → List Interface → List Interface
named attrs none is = is
named attrs (some []) is = is
named attrs (some (c ∷ s)) is = row_interface (c ∷ s) attrs ∷ is

counter-or_text : (o : Option Text) → parse_int (or_text o (codes "0")) ≡ counter o
counter-or_text none = refl
counter-or_text (some []) = refl
counter-or_text (some (c ∷ s)) = refl

says_true-is_true : (o : Option Text) → is_true o ≡ says_true o
says_true-is_true none = refl
says_true-is_true (some s) = refl

interface_of-row :
    (name : Text) (attrs : Attrs) → interface_of name attrs ≡ row_interface name attrs
interface_of-row name attrs =
    rw
      (
        counter-or_text (lookup (codes "rx-byte") attrs),
        counter-or_text (lookup (codes "tx-byte") attrs),
        says_true-is_true (lookup (codes "running") attrs),
      )
      refl

-- The interfaces that have a name, in order.
unfoldable pub interfaces_of : List (List Text) → List Interface
interfaces_of [] = []
interfaces_of (row ∷ rows) =
    let attrs = words_to_attrs (re row) in
    named attrs (lookup (codes "name") attrs) (interfaces_of rows)

pushed : Attrs → Option Text → List Interface → List Interface
pushed attrs none is = is
pushed attrs (some []) is = is
pushed attrs (some (c ∷ s)) is = is ++ (row_interface (c ∷ s) attrs ∷ [])

with_interface-pushed :
    (attrs : Attrs) (o : Option Text) (m : RouterOsMetrics) (is : List Interface)
    → m.interfaces ≡ some is
    → with_interface attrs o m ≡ record m { interfaces = some (pushed attrs o is) }
unfolding pushed
with_interface-pushed attrs none m is e = ap (λ x. record m { interfaces = x }) e
with_interface-pushed attrs (some []) m is e = ap (λ x. record m { interfaces = x }) e
with_interface-pushed attrs (some (c ∷ s)) m is e = rw (e, interface_of-row (c ∷ s) attrs) refl

pushed-append :
    (attrs : Attrs) (o : Option Text) (is later : List Interface)
    → pushed attrs o is ++ later ≡ is ++ named attrs o later
unfolding pushed
pushed-append attrs none is later = refl
pushed-append attrs (some []) is later = refl
pushed-append attrs (some (c ∷ s)) is later = append_assoc is _ later

rows_answer :
    (rows : List (List Text)) (t : Session) (m : RouterOsMetrics) (is : List Interface)
    → m.interfaces ≡ some is
    → t.resolved ≡ none
    → (on_sentences
        (map re rows ++ (done ∷ []))
        (record t { phase = interface; result = m })).resolved
      ≡ some (record m { interfaces = some (is ++ interfaces_of rows) })
unfolding on_sentences on_sentence is_tag interfaces_of
rows_answer [] t m is e unresolved =
    rw (unresolved, append-nil) (ap (λ x. some (record m { interfaces = x })) e)
rows_answer (row ∷ rows) t m is e unresolved =
    let attrs = words_to_attrs (re row) in
    let o = lookup (codes "name") attrs in
    let js = pushed attrs o is in
    ap
      (λ (x : RouterOsMetrics).
        (on_sentences (map re rows ++ (done ∷ []))
          (record t { phase = interface; result = x })).resolved)
      (with_interface-pushed attrs o m is e)
    ∙ rows_answer rows t (record m { interfaces = some js }) js refl unresolved
    ∙ ap (λ x. some (record m { interfaces = some x }))
        (pushed-append attrs o is (interfaces_of rows))

-- What the router sends: it accepts the login, answers the resource command with `row`, and the
-- interface command with `rows`.
abbrev pub conversation : List Text → List (List Text) → List (List Text)
conversation row rows = done ∷ re row ∷ done ∷ (map re rows ++ (done ∷ []))

-- The platform, `MikroTik` where the row has none or an empty one.
abbrev pub platform : Option Text → Text
platform none = codes "MikroTik"
platform (some []) = codes "MikroTik"
platform (some (c ∷ s)) = c ∷ s

-- A number, if the row has a text for it that is not empty.
abbrev pub number : Option Text → Option Number
number none = none
number (some []) = none
number (some (c ∷ s)) = some (parse_int (c ∷ s))

-- The metrics of such a router.
abbrev pub metrics_of : List Text → List (List Text) → RouterOsMetrics
metrics_of row rows =
    let attrs = words_to_attrs (re row) in
    record {
      success = true;
      ros_version = lookup (codes "version") attrs;
      board_name = lookup (codes "board-name") attrs;
      model = some (platform (lookup (codes "platform") attrs));
      cpu_load = number (lookup (codes "cpu-load") attrs);
      free_memory = number (lookup (codes "free-memory") attrs);
      total_memory = number (lookup (codes "total-memory") attrs);
      uptime = parse_uptime (lookup (codes "uptime") attrs);
      interfaces = some (interfaces_of rows);
      error = none;
    }

platform-or_text : (o : Option Text) → or_text o (codes "MikroTik") ≡ platform o
platform-or_text none = refl
platform-or_text (some []) = refl
platform-or_text (some (c ∷ s)) = refl

number-optional_int : (o : Option Text) → optional_int o ≡ number o
number-optional_int none = refl
number-optional_int (some []) = refl
number-optional_int (some (c ∷ s)) = refl

with_resource-metrics_of :
    (row : List Text) (rows : List (List Text))
    → record (with_resource (words_to_attrs (re row)) blank) {
      interfaces = some (interfaces_of rows);
    }
      ≡ metrics_of row rows
with_resource-metrics_of row rows =
    let attrs = words_to_attrs (re row) in
    rw
      (
        platform-or_text (lookup (codes "platform") attrs),
        number-optional_int (lookup (codes "cpu-load") attrs),
        number-optional_int (lookup (codes "free-memory") attrs),
        number-optional_int (lookup (codes "total-memory") attrs),
      )
      refl

on_sentences-conversation :
    (c : Credentials) (row : List Text) (rows : List (List Text))
    → (on_sentences (conversation row rows) (on_connect c start)).resolved
      ≡ some (metrics_of row rows)
unfolding on_sentences on_sentence is_tag
on_sentences-conversation c row rows =
    rows_answer rows
      (write (encode_sentence interface_sentence)
        (write (encode_sentence resource_sentence) (on_connect c start)))
      (with_resource (words_to_attrs (re row)) blank) [] refl refl
    ∙ ap some (with_resource-metrics_of row rows)

nothing_read : decode_words [] ≡ some (record { sentences = []; remaining = [] })
unfolding decode_words
nothing_read = refl

-- A router that accepts the login, answers the resource command with one row of attributes and the
-- interface command with any number of rows, is answered for with success and no error; with the
-- version, board, model (`MikroTik` where it gives none), load, memory and uptime that the first
-- row has under their keys; and with one interface for each later row that has a name, in order,
-- with that name, its counters (0 where they are missing) and whether it runs. The bytes arrive in
-- one piece, and the words are in UTF-8, not empty and shorter than 2 ^ 31 bytes.
pub on_data-conversation :
    (c : Credentials) (row : List Text) (rows : List (List Text))
    → All IsSentence (conversation row rows)
    → (s : Session) × (on_data (stream (conversation row rows)) (on_connect c start) ≡ some s)
      × (s.resolved ≡ some (metrics_of row rows))
unfolding on_data
on_data-conversation c row rows h =
    let said = conversation row rows in
    let decoded : decode_words (stream said) ≡ some (record { sentences = said; remaining = [] }) =
      ap decode_words (sym (append-nil (stream said)))
      ∙ decode_words-stream said [] (record { sentences = []; remaining = [] }) h tt
          (below_f0-IsTame [] tt) nothing_read
      ∙ rw (append-nil said) in
    (
      on_sentences said (on_connect c start),
      rw (decoded, on_data),
      on_sentences-conversation c row rows,
    )
