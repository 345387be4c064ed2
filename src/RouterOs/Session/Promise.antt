-- ===== src/RouterOs/Session/Promise.antt =====
-- The promise of `collectRouterMetrics` (apps/api/src/lib/routeros-api.ts) keeps its first value.
use mikrotikbandwidthmonitor.Prelude.{
  ◌≡◌, ◌∙◌, some, List, [], ◌∷◌, ◌++◌, arith, Option-cases, inl, inr, Bool-cases, sym, ap, some_inj,
}
use mikrotikbandwidthmonitor.Prelude.Bytes.{Text}
use mikrotikbandwidthmonitor.RouterOs.Wire.{decode_words}
use mikrotikbandwidthmonitor.RouterOs.Session.{
  RouterOsMetrics, Phase, login, resource, interface, Session, in_phase, on_sentence, on_sentences,
  on_data, Event, handle, handle_all, timeout, received, failure,
}

phase-resolved :
    (p : Phase) (words : List Text) (s : Session) {m : RouterOsMetrics}
    → s.resolved ≡ some m
    → (in_phase p words s).0.resolved ≡ some m
phase-resolved login words s e = ground arith
phase-resolved resource words s e = ground arith
phase-resolved interface words s e = ground arith

on_sentences-resolved :
    (sentences : List (List Text)) (s : Session) {m : RouterOsMetrics}
    → s.resolved ≡ some m
    → (on_sentences sentences s).resolved ≡ some m
unfolding on_sentences on_sentence
on_sentences-resolved [] s e = e
on_sentences-resolved (words ∷ rest) s e = elim (Bool-cases (in_phase s.phase words s).1) [
  | inl returns ↦ rw (returns, on_sentences) (phase-resolved s.phase words s e)
  | inr goes_on ↦
      rw (goes_on, on_sentences) (on_sentences-resolved rest _ (phase-resolved s.phase words s e))
]

handle-resolved :
    (e : Event) (s : Session) {s' : Session} {m : RouterOsMetrics}
    → handle e s ≡ some s'
    → s.resolved ≡ some m
    → s'.resolved ≡ some m
unfolding handle on_data
handle-resolved timeout s e h = ground arith
handle-resolved (failure message) s e h = ground arith
handle-resolved (received chunk) s e h = elim (Bool-cases s.destroyed) [
  | inl over ↦ ap (λ (t : Session). t.resolved) (sym (some_inj (rw (over, handle) at e))) ∙ h
  | inr still ↦ elim (Option-cases (decode_words (s.buf ++ chunk))) [
    | inl looping ↦ cc (rw (still, looping, handle, on_data) at e)
    | inr (d, returned) ↦
        ap (λ (t : Session). t.resolved)
          (sym (some_inj (rw (still, returned, handle, on_data) at e)))
        ∙ on_sentences-resolved d.sentences (record s { buf = d.remaining }) h
  ]
]

-- Once the promise has a value, no later event changes it.
handle_all-resolved :
    (es : List Event) (s : Session) {s' : Session} {m : RouterOsMetrics}
    → handle_all es s ≡ some s'
    → s.resolved ≡ some m
    → s'.resolved ≡ some m
unfolding handle_all
handle_all-resolved [] s e h = ap (λ (t : Session). t.resolved) (sym (some_inj e)) ∙ h
handle_all-resolved (e ∷ es) s eq h = elim (Option-cases (handle e s)) [
  | inl looping ↦ cc (rw (looping, handle_all) at eq)
  | inr (t, returned) ↦
      handle_all-resolved es t (rw (returned, handle_all) at eq) (handle-resolved e s returned h)
]
