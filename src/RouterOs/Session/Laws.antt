-- ===== src/RouterOs/Session/Laws.antt =====
-- What every run of `collectRouterMetrics` (apps/api/src/lib/routeros-api.ts) keeps.
use mikrotikbandwidthmonitor.Prelude.{
  ◌≡◌, ◌≢◌, true, Option, none, some, List, [], ◌∷◌, ◌++◌, if◌then◌else◌, ◌||◌, false, suc, ℕ, ◌≤◌,
  Bool,
}
use mikrotikbandwidthmonitor.Prelude.Bytes.{Buffer, Text, codes}
use mikrotikbandwidthmonitor.RouterOs.Wire.{encode_sentence, decode_words}
use mikrotikbandwidthmonitor.RouterOs.Session.{
  RouterOsMetrics, Phase, login, resource, interface, Session, Credentials, login_sentence,
  resource_sentence, interface_sentence, Event, handle, timeout, received, failure, is_tag,
}

-- The commands that a phase has sent.
abbrev pub sent : Credentials → Phase → List Buffer
sent c login = encode_sentence (login_sentence c) ∷ []
sent c resource = encode_sentence (login_sentence c) ∷ encode_sentence resource_sentence ∷ []
sent c interface =
    encode_sentence (login_sentence c)
    ∷ encode_sentence resource_sentence
    ∷ encode_sentence interface_sentence
    ∷ []

-- An answer that reports success was given in the last phase.
abbrev pub AnswerFits : Option RouterOsMetrics → Phase → Type 0
AnswerFits none phase = Unit
AnswerFits (some m) phase = m.success ≡ true → phase ≡ interface

-- What the router has said so far: how it answered the login, and how many replies it has ended.
pub record Said : Type 0 where
  pub verdict : Option Bool
  pub ends : ℕ

abbrev pub silence : Said
silence = record { verdict = none; ends = 0 }

-- The login is answered by the first `!trap`, `!fatal` or `!done`.
abbrev pub judged : Option Bool → List Text → Option Bool
judged (some b) words = some b
judged none words =
    if is_tag words (codes "!trap") || is_tag words (codes "!fatal")
    then some false
    else if is_tag words (codes "!done")
    then some true
    else none

abbrev pub hear : Said → List Text → Said
hear v words = record {
  verdict = judged v.verdict words;
  ends = if is_tag words (codes "!done") then suc v.ends else v.ends;
}

unfoldable pub hear_all : Said → List (List Text) → Said
hear_all v [] = v
hear_all v (words ∷ rest) = hear_all (hear v words) rest

-- The sentences that an event completes, and those of a run.
unfoldable pub sentences_of : Event → Session → List (List Text)
sentences_of timeout s = []
sentences_of (failure message) s = []
sentences_of (received chunk) s =
    if s.destroyed
    then []
    else elim (decode_words (s.buf ++ chunk)) [ none ↦ [] | some d ↦ d.sentences ]

unfoldable pub heard : List Event → Session → List (List Text)
heard [] s = []
heard (e ∷ es) s = sentences_of e s ++ elim (handle e s) [ none ↦ [] | some s' ↦ heard es s' ]

abbrev pub rank : Phase → ℕ
rank login = 0
rank resource = 1
rank interface = 2

pub record IsSound (c : Credentials) (v : Said) (s : Session) : Type 0 where
  pub commands : s.written ≡ sent c s.phase
  pub logged_in : s.result.success ≡ true → s.phase ≢ login
  pub answer : AnswerFits s.resolved s.phase
  pub accepted : s.phase ≢ login → v.verdict ≡ some true
  pub undecided : s.destroyed ≡ false → s.phase ≡ login → v.verdict ≡ none
  pub ended : rank s.phase ≤ v.ends
