-- ===== src/RouterOs/Chunks.antt =====
-- `decodeWords` of apps/api/src/lib/routeros-api.ts on a stream that arrives in pieces.
use mikrotikbandwidthmonitor.Prelude.{
  ℕ, zero, suc, ◌+◌, ◌≤◌, ◌≡◌, refl, sym, ap, ◌∙◌, subst, false, true, some, leb, ◌==◌, List, [],
  ◌∷◌, ◌++◌, length, take, drop, length-append, length-drop, All, All-append, arith,
}
use mathlib.Core.List.{append-nil, append_assoc}
use mikrotikbandwidthmonitor.Prelude.Bytes.{Buffer, Text, IsByte}
use mikrotikbandwidthmonitor.RouterOs.Wire.{Decoded, flush, encode_sentence, decode_words}
use mikrotikbandwidthmonitor.RouterOs.Length.{read_length, read_length-append, read_length_takes}
use mikrotikbandwidthmonitor.RouterOs.Frames.{
  cut, terminator, word, frame, frame_of-eq-terminator, frame_of-eq-word, Reads, stop, close, more,
}
use mikrotikbandwidthmonitor.RouterOs.Reading.{decode_words-Reads, IsTame, tame-Reading}
use mikrotikbandwidthmonitor.RouterOs.RoundTrip.{
  IsWord, words_of, words_of-IsByte, Reads-words, frame_terminator, encode_sentence_lem,
}

drop-append {ℓ} :
    {A : Type ℓ} (k : ℕ) (xs ys : List A) → k ≤ length xs → drop k (xs ++ ys) ≡ drop k xs ++ ys
drop-append zero xs ys h = refl
drop-append (suc k) [] ys h = elim h [ ]
drop-append (suc k) (x ∷ xs) ys h = drop-append k xs ys (omega arith)

take-append {ℓ} :
    {A : Type ℓ} (k : ℕ) (xs ys : List A) → k ≤ length xs → take k (xs ++ ys) ≡ take k xs
take-append zero xs ys h = refl
take-append (suc k) [] ys h = elim h [ ]
take-append (suc k) (x ∷ xs) ys h = ap (λ t. x ∷ t) (take-append k xs ys (omega arith))

-- Bytes that arrive later do not change a frame that is whole.
frame-append_terminator :
    (xs ys : Buffer) {rest : Buffer}
    → frame xs ≡ terminator rest
    → frame (xs ++ ys) ≡ terminator (rest ++ ys)
unfolding frame
frame-append_terminator xs ys f =
    let (k, r, d) = frame_of-eq-terminator xs (read_length xs) f in
    let (low, high) = read_length_takes xs r in
    rw (read_length-append xs ys r, drop-append k xs ys high, d)

frame-append_word :
    (xs ys : Buffer) {w : Text} {rest : Buffer}
    → frame xs ≡ word w rest
    → frame (xs ++ ys) ≡ word w (rest ++ ys)
unfolding frame
frame-append_word xs ys f =
    let (n, k, r, positive, fits, w, d) = frame_of-eq-word xs (read_length xs) f in
    let (low, high) = read_length_takes xs r in
    let z : (n == 0) ≡ false = ground arith in
    let l : leb (k + n) (length (xs ++ ys)) ≡ true = ground (arith, length-append xs ys) in
    rw (
      read_length-append xs ys r,
      z,
      l,
      drop-append k xs ys high,
      take-append n (drop k xs) ys (omega (arith, length-drop k xs)),
      w,
      drop-append (k + n) xs ys fits,
      d,
    )

-- Reading goes on where it stopped, with the words of the open sentence.
pub Reads-append :
    {xs remaining last : Buffer} {current left open_words : List Text} {ss ss' : List (List Text)}
    (ys : Buffer)
    → Reads xs current ss left remaining
    → Reads (remaining ++ ys) left ss' open_words last
    → Reads (xs ++ ys) current (ss ++ ss') open_words last
Reads-append ys (stop f) r = r
Reads-append {ss'} ys (close {xs} {current} {sentences} f a s) r =
    close (frame-append_terminator xs ys f) (rw a (append_assoc (flush [] current) sentences ss'))
      (Reads-append ys s r)
Reads-append ys (more {xs} f a s) r = more (frame-append_word xs ys f) a (Reads-append ys s r)

-- If the first piece ends with no sentence open (its last bytes may be part of a word), and no length
-- is negative in the bytes that it leaves together with the next piece, then reading those gives the
-- sentences that the whole would have given behind those of the first piece, in order, and leaves
-- the same bytes.
pub decode_words-append :
    (a b : Buffer) {ss : List (List Text)} {remaining : Buffer} (d : Decoded)
    → All IsByte a
    → All IsByte b
    → Reads a [] ss [] remaining
    → All IsByte (remaining ++ b)
    → IsTame (remaining ++ b)
    → decode_words (remaining ++ b) ≡ some d
    → (decode_words a ≡ some (record { sentences = ss; remaining = remaining }))
      × (decode_words (a ++ b)
          ≡ some (record { sentences = ss ++ d.sentences; remaining = d.remaining }))
decode_words-append a b {ss} {remaining} d ha hb r bytes tame e =
    let s = tame-Reading (remaining ++ b) tame in
    let same : record { sentences = s.sentences; remaining = s.remaining } ≡ d =
      cc (decode_words-Reads (remaining ++ b) bytes s.reads) in
    (
      decode_words-Reads a ha r,
      decode_words-Reads (a ++ b) (All-append IsByte a b ha hb) (Reads-append b r s.reads)
          ∙ ap
              (λ (x : Decoded).
                some (record { sentences = ss ++ x.sentences; remaining = x.remaining }))
              same,
    )

frame_empty : frame [] ≡ cut
unfolding frame read_length
frame_empty = refl

Reads-open : (ws : List Text) → All IsWord ws → Reads (words_of ws) [] [] ws []
Reads-open ws h =
    subst (λ b. Reads b [] [] ws []) (append-nil (words_of ws))
      (Reads-words ws h refl (stop frame_empty))

Reads-rest :
    (vs : List Text) → All IsWord vs → Reads (words_of vs ++ (0 ∷ [])) [] (flush [] vs) [] []
Reads-rest vs h =
    Reads-words vs h refl (close (frame_terminator []) (sym (append-nil _)) (stop frame_empty))

sentence-IsByte : (vs : List Text) → All IsWord vs → All IsByte (words_of vs ++ (0 ∷ []))
sentence-IsByte vs h = All-append IsByte (words_of vs) (0 ∷ []) (words_of-IsByte vs h) (omega arith)

-- Read at once, the sentence of the words `ws` and then `vs` comes back whole. If it arrives in
-- two pieces, cut behind the words `ws`, the first piece gives no sentence and leaves no bytes,
-- and the second gives the words `vs` alone, or no sentence where there are none: `ws` is lost.
-- The words are in UTF-8, not empty and shorter than 2 ^ 31 bytes.
pub open_words_lost :
    (ws vs : List Text)
    → All IsWord ws
    → All IsWord vs
    → (decode_words (encode_sentence (ws ++ vs))
        ≡ some (record { sentences = flush [] (ws ++ vs); remaining = [] }))
      × (decode_words (words_of ws) ≡ some (record { sentences = []; remaining = [] }))
      × (decode_words ([] ++ (words_of vs ++ (0 ∷ [])))
          ≡ some (record { sentences = flush [] vs; remaining = [] }))
open_words_lost ws vs hw hv =
    let h = All-append IsWord ws vs hw hv in
    (
      rw encode_sentence_lem (
          decode_words-Reads (words_of (ws ++ vs) ++ (0 ∷ [])) (sentence-IsByte (ws ++ vs) h)
            (Reads-rest (ws ++ vs) h)),
      decode_words-Reads (words_of ws) (words_of-IsByte ws hw) (Reads-open ws hw),
      decode_words-Reads (words_of vs ++ (0 ∷ [])) (sentence-IsByte vs hv) (Reads-rest vs hv),
    )
