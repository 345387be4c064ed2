-- ===== src/Tests/Session.antt =====
-- `collectRouterMetrics` of apps/api/src/lib/routeros-api.ts against a router that answers.
use mikrotikbandwidthmonitor.RouterOs.Wire.{encode_sentence, decode_loop, decode_words, past_end}
use mikrotikbandwidthmonitor.Prelude.{◌≡◌, refl, false, some, List, [], ◌∷◌, arith}
use mikrotikbandwidthmonitor.Prelude.Utf8.{to_string, to_string-ascii}
use mikrotikbandwidthmonitor.Prelude.Bytes.{Text, codes}
use mikrotikbandwidthmonitor.RouterOs.RoundTrip.{IsWord, IsSentence, stream}
use mikrotikbandwidthmonitor.RouterOs.Session.{
  Credentials, Session, write, start, on_connect, on_data, on_timeout, handle, handle_all, timeout,
  failure, resource, resource_sentence, is_tag, on_sentence, on_sentences,
}
use mikrotikbandwidthmonitor.RouterOs.Session.Conversation.{
  conversation, metrics_of, on_data-conversation, re, done,
}

run : Unit {0}
unfolding handle_all handle on_data on_sentences on_sentence is_tag decode_words decode_loop
    past_end to_string
run = tt

abbrev ada : Credentials
ada = record { username = codes "ada"; password = codes "pw" }

timed_out :
    handle_all (timeout ∷ []) (on_connect ada start) ≡ some (on_timeout (on_connect ada start))
unfolding run
timed_out = refl

abbrev opened : Session
opened = on_connect ada start

abbrev asking : Session
asking = write (encode_sentence resource_sentence) (record opened { phase = resource })

abbrev late : Session
late = on_timeout (on_connect ada start)

late_failure : handle_all (failure (codes "reset") ∷ []) late ≡ some (record late { timer = false })
unfolding run
late_failure = refl

abbrev row : List Text
row = codes "=version=7.1" ∷ []

abbrev ether1 : List Text
ether1 = codes "=name=e1" ∷ []

re-IsSentence : (w : Text) → IsWord w → IsSentence (re (w ∷ []))
re-IsSentence w h = record {
  filled = refl;
  words = (
    record {
      filled = omega arith;
      short = omega arith;
      bytes = omega arith;
      utf8 = to_string-ascii _ (omega arith);
    },
    (h, tt),
  );
}

done-IsSentence : IsSentence done
done-IsSentence = record {
  filled = refl;
  words = (
    record {
      filled = omega arith;
      short = omega arith;
      bytes = omega arith;
      utf8 = to_string-ascii _ (omega arith);
    },
    tt,
  );
}

on_data-conversation_example :
    (s : Session) × (on_data (stream (conversation row (ether1 ∷ []))) (on_connect ada start)
      ≡ some s)
    × (s.resolved ≡ some (metrics_of row (ether1 ∷ [])))
on_data-conversation_example = on_data-conversation ada row (ether1 ∷ []) (
  done-IsSentence,
  (
    re-IsSentence (codes "=version=7.1") (record {
      filled = omega arith;
      short = omega arith;
      bytes = omega arith;
      utf8 = to_string-ascii _ (omega arith);
    }),
    (
      done-IsSentence,
      (
        re-IsSentence (codes "=name=e1") (record {
          filled = omega arith;
          short = omega arith;
          bytes = omega arith;
          utf8 = to_string-ascii _ (omega arith);
        }),
        (done-IsSentence, tt),
      ),
    ),
  ),
)
