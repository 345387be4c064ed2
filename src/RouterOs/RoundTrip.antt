-- ===== src/RouterOs/RoundTrip.antt =====
-- Sentences written by `encodeSentence` of apps/api/src/lib/routeros-api.ts, read by `decodeWords`.
use mikrotikbandwidthmonitor.Prelude.{
  ◌+◌, ◌^◌, ◌<◌, ◌≡◌, refl, sym, ap, ◌∙◌, subst, false, true, some, leb, ◌==◌, List, [], ◌∷◌, ◌++◌,
  map, length, drop, length-append, take-append_left, drop-append_left, All, All-append, arith,
}
use mathlib.Core.List.{append-nil, append_assoc}
use mikrotikbandwidthmonitor.Prelude.Utf8.{to_string}
use mikrotikbandwidthmonitor.Prelude.Int.{pos, int32}
use mikrotikbandwidthmonitor.Prelude.Bytes.{Buffer, Text, IsByte}
use mikrotikbandwidthmonitor.RouterOs.Wire.{
  Decoded, concat, flush, encode_length, encode_word, encode_sentence, decode_words,
}
use mikrotikbandwidthmonitor.RouterOs.Length.{
  read_length, read_length-encode_length, encode_length-IsByte,
}
use mikrotikbandwidthmonitor.RouterOs.Frames.{
  terminator, word, frame, frame_of, drop-drop, Reads, close, more,
}
use mikrotikbandwidthmonitor.RouterOs.Reading.{decode_words-Reads, IsTame, tame-Reading}

-- A word that the protocol can carry: a text in UTF-8, not empty and shorter than 2 ^ 31 bytes.
pub record IsWord (w : Text) : Type 0 where
  pub filled : 0 < length w
  pub short : length w < 2 ^ 31
  pub bytes : All IsByte w
  pub utf8 : to_string w ≡ w

frame_of_word :
    (p w rest : Buffer)
    → 0 < length w
    → to_string w ≡ w
    → frame_of (p ++ (w ++ rest)) (some (pos (length w), length p)) ≡ word w rest
frame_of_word p w rest h valid =
    let xs : Buffer = p ++ (w ++ rest) in
    let z : (length w == 0) ≡ false = ground arith in
    let fits : leb (length p + length w) (length xs) ≡ true =
      ground (arith, length-append p (w ++ rest), length-append w rest) in
    let behind : drop (length p + length w) xs ≡ rest =
      sym (drop-drop (length p) (length w) xs)
      ∙ rw (drop-append_left p (w ++ rest)) (drop-append_left w rest) in
    rw (z, fits, behind, drop-append_left p (w ++ rest), take-append_left w rest, valid)

frame-encode_word :
    (w : Text) (rest : Buffer) → IsWord w → frame (encode_word w ++ rest) ≡ word w rest
unfolding frame encode_word
frame-encode_word w rest h =
    let small : int32 (length w) ≡ pos (length w) = ground arith in
    rw (append_assoc, read_length-encode_length (length w) (w ++ rest) (omega arith), small)
      (frame_of_word (encode_length (length w)) w rest h.filled h.utf8)

pub frame_terminator : (rest : Buffer) → frame (0 ∷ rest) ≡ terminator rest
unfolding frame read_length
frame_terminator rest = refl

abbrev pub words_of : List Text → Buffer
words_of ws = concat (map encode_word ws)

-- Words with no terminator stay open.
pub Reads-words :
    (ws : List Text) {current longer left : List Text} {ss : List (List Text)}
    {rest remaining : Buffer}
    → All IsWord ws
    → longer ≡ current ++ ws
    → Reads rest longer ss left remaining
    → Reads (words_of ws ++ rest) current ss left remaining
Reads-words [] {current} {left} {ss} {rest} {remaining} h e r =
    subst (λ c. Reads rest c ss left remaining) (e ∙ append-nil current) r
Reads-words (w ∷ ws) {current} {rest} (hw, h) e r = rw append_assoc (
    more (frame-encode_word w (words_of ws ++ rest) hw) refl
      (Reads-words ws h (e ∙ sym (append_assoc current (w ∷ []) ws)) r))

concat-append : (ps qs : List Buffer) → concat (ps ++ qs) ≡ concat ps ++ concat qs
concat-append [] qs = refl
concat-append (p ∷ ps) qs = rw (concat-append ps qs) (sym (append_assoc p (concat ps) (concat qs)))

pub encode_sentence_lem : (ws : List Text) → encode_sentence ws ≡ words_of ws ++ (0 ∷ [])
unfolding encode_sentence encode_length
encode_sentence_lem ws = concat-append (map encode_word ws) _

-- A sentence that the protocol can carry.
pub record IsSentence (ws : List Text) : Type 0 where
  pub filled : flush [] ws ≡ ws ∷ []
  pub words : All IsWord ws

Reads-sentence :
    (ws : List Text) {left : List Text} {ss : List (List Text)} {rest remaining : Buffer}
    → IsSentence ws
    → Reads rest [] ss left remaining
    → Reads (encode_sentence ws ++ rest) [] (ws ∷ ss) left remaining
Reads-sentence ws {ss} {rest} h r =
    rw (encode_sentence_lem ws, append_assoc)
      (Reads-words ws h.words refl
        (close (frame_terminator rest) (ap (λ f. f ++ ss) (sym h.filled)) r))

abbrev pub stream : List (List Text) → Buffer
stream sentences = concat (map encode_sentence sentences)

pub Reads-stream :
    (sentences : List (List Text)) {left : List Text} {ss : List (List Text)}
    {rest remaining : Buffer}
    → All IsSentence sentences
    → Reads rest [] ss left remaining
    → Reads (stream sentences ++ rest) [] (sentences ++ ss) left remaining
Reads-stream [] h r = r
Reads-stream (ws ∷ wss) (hw, h) r = rw append_assoc (Reads-sentence ws hw (Reads-stream wss h r))

pub words_of-IsByte : (ws : List Text) → All IsWord ws → All IsByte (words_of ws)
unfolding encode_word
words_of-IsByte [] h = tt
words_of-IsByte (w ∷ ws) (hw, h) =
    All-append IsByte _ (words_of ws)
      (All-append IsByte (encode_length (length w)) w (encode_length-IsByte _ (omega arith))
        hw.bytes)
      (words_of-IsByte ws h)

pub stream-IsByte :
    (sentences : List (List Text)) → All IsSentence sentences → All IsByte (stream sentences)
stream-IsByte [] h = tt
stream-IsByte (ws ∷ wss) (hw, h) =
    All-append IsByte (encode_sentence ws) (stream wss)
      (rw encode_sentence_lem
        (All-append IsByte (words_of ws) (0 ∷ []) (words_of-IsByte ws hw.words) (omega arith)))
      (stream-IsByte wss h)

-- Sentences of words in UTF-8 that are not empty and shorter than 2 ^ 31 bytes, none of them
-- empty, are read back from what `encodeSentence` wrote, in order; the bytes that follow are read
-- as they would be alone, if they hold no negative length.
pub decode_words-stream :
    (sentences : List (List Text)) (tail : Buffer) (d : Decoded)
    → All IsSentence sentences
    → All IsByte tail
    → IsTame tail
    → decode_words tail ≡ some d
    → decode_words (stream sentences ++ tail)
      ≡ some (record { sentences = sentences ++ d.sentences; remaining = d.remaining })
decode_words-stream sentences tail d h bytes tame e =
    let r = tame-Reading tail tame in
    let same : record { sentences = r.sentences; remaining = r.remaining } ≡ d =
      cc (decode_words-Reads tail bytes r.reads) in
    decode_words-Reads (stream sentences ++ tail)
      (All-append IsByte (stream sentences) tail (stream-IsByte sentences h) bytes)
      (Reads-stream sentences h r.reads)
    ∙ ap
        (λ (x : Decoded).
          some (record { sentences = sentences ++ x.sentences; remaining = x.remaining }))
        same
