-- ===== src/RouterOs/Reading.antt =====
-- `decodeWords` of apps/api/src/lib/routeros-api.ts against the relation `Reads`.
use mikrotikbandwidthmonitor.Prelude.{
  ℕ, zero, suc, ◌+◌, ◌≤◌, ◌<◌, ◌≡◌, ◌≢◌, refl, sym, ap, ◌∙◌, some, List, [], ◌∷◌, ◌++◌, length,
  drop, length-drop, All, All-drop, arith,
}
use mathlib.Core.List.{append-nil, append_assoc}
use mikrotikbandwidthmonitor.Prelude.Int.{pos}
use mikrotikbandwidthmonitor.Prelude.Bytes.{Buffer, Text, IsByte}
use mikrotikbandwidthmonitor.RouterOs.Wire.{Decoded, flush, decode_loop, decode_words}
use mikrotikbandwidthmonitor.RouterOs.Length.{read_length, read_length_takes}
use mikrotikbandwidthmonitor.RouterOs.Frames.{
  Frame, cut, terminator, word, runaway, frame, frame_of, frame_of-eq-terminator, frame_of-eq-word,
  drop-drop, Reads, stop, close, more, loop_cut, loop_close, loop_more,
}

flush_append :
    (acc ss : List (List Text)) (current : List Text)
    → flush acc current ++ ss ≡ acc ++ (flush [] current ++ ss)
flush_append acc ss [] = refl
flush_append acc ss (w ∷ ws) = append_assoc acc ((w ∷ ws) ∷ []) ss

-- The loop, started anywhere in a buffer, follows the relation.
Reads-loop :
    {xs remaining : Buffer} {current left : List Text} {ss : List (List Text)}
    → Reads xs current ss left remaining
    → (fuel o : ℕ) (buf : Buffer) (acc : List (List Text)) → xs ≡ drop o buf
    → All IsByte buf
    → o ≤ length buf
    → length buf < o + fuel
    → (end : ℕ) × (decode_loop fuel buf (pos o) current acc
        ≡ some (record { sentences = acc ++ ss; current = left; offset = pos end }))
      × (drop end buf ≡ remaining)
Reads-loop r zero o buf acc e bytes inside enough = absurd (omega arith)
Reads-loop (stop {current} f) (suc fuel) o buf acc e bytes inside enough =
    (o, loop_cut fuel o buf current acc bytes inside (ap frame (sym e) ∙ f) ∙ rw append-nil, sym e)
Reads-loop (close {current} {sentences} f a r) (suc fuel) o buf acc e bytes inside enough =
    let (k, d, positive, fits, round) =
      loop_close fuel o buf current acc bytes inside (ap frame (sym e) ∙ f) in
    let (end, run, last) =
      Reads-loop r fuel (o + k) buf (flush acc current) (sym d) bytes fits (omega arith) in
    (end, round ∙ run ∙ rw (a, flush_append acc sentences current), last)
Reads-loop (more {current} f a r) (suc fuel) o buf acc e bytes inside enough =
    let (k, d, positive, fits, round) =
      loop_more fuel o buf current acc bytes inside (ap frame (sym e) ∙ f) in
    let (end, run, last) = Reads-loop r fuel (o + k) buf acc (sym d) bytes fits (omega arith) in
    (end, round ∙ ap (λ c. decode_loop fuel buf (pos (o + k)) c acc) (sym a) ∙ run, last)

-- If frames make up a buffer of bytes (the relation `Reads`: whole words, ends of sentences, and
-- then a part that is cut), `decodeWords` returns the sentences they make, with each word decoded
-- as UTF-8 (what is not UTF-8 becomes U+FFFD), and the part that is cut; the words of a sentence
-- that is still open are not returned.
pub decode_words-Reads :
    (buf : Buffer) {left : List Text} {ss : List (List Text)} {remaining : Buffer}
    → All IsByte buf
    → Reads buf [] ss left remaining
    → decode_words buf ≡ some (record { sentences = ss; remaining = remaining })
unfolding decode_words
decode_words-Reads buf bytes r =
    let (end, run, last) =
      Reads-loop r (suc (length buf)) 0 buf [] refl bytes (omega arith) (omega arith) in
    rw (run, decode_words) (rw last)

-- Without a negative length there is a reading.
abbrev pub IsTame : Buffer → Type 0
IsTame buf = (o : ℕ) → frame (drop o buf) ≢ runaway

pub record Reading (xs : Buffer) (current : List Text) : Type 0 where
  pub sentences : List (List Text)
  pub left : List Text
  pub remaining : Buffer
  pub reads : Reads xs current sentences left remaining

IsTame-drop : (k : ℕ) (xs : Buffer) {rest : Buffer} → drop k xs ≡ rest → IsTame xs → IsTame rest
IsTame-drop k xs e t o = λ f. t (k + o) (ap frame (sym (drop-drop k o xs) ∙ ap (drop o) e) ∙ f)

terminator_shorter :
    (xs : Buffer) {rest : Buffer}
    → frame xs ≡ terminator rest
    → (k : ℕ) × (drop k xs ≡ rest) × (length rest < length xs)
unfolding frame
terminator_shorter xs f =
    let (k, r, d) = frame_of-eq-terminator xs (read_length xs) f in
    let taken = read_length_takes xs r in (k, d, omega (arith, ap length (sym d), length-drop k xs))

word_shorter :
    (xs : Buffer) {w : Text} {rest : Buffer}
    → frame xs ≡ word w rest
    → (k : ℕ) × (drop k xs ≡ rest) × (length rest < length xs)
unfolding frame
word_shorter xs f =
    let (n, k, r, positive, fits, w, d) = frame_of-eq-word xs (read_length xs) f in
    let taken = read_length_takes xs r in
    (k + n, d, omega (arith, ap length (sym d), length-drop (k + n) xs))

reading :
    (fuel : ℕ) (xs : Buffer) (current : List Text)
    → length xs < fuel
    → IsTame xs
    → Reading xs current
reading zero xs current h t = absurd (omega arith)
reading (suc fuel) xs current h t = by_frame (frame xs) refl (reading fuel)
  where
    by_frame :
        (f : Frame)
        → frame xs ≡ f
        → ((ys : Buffer) (c : List Text) → length ys < fuel → IsTame ys → Reading ys c)
        → Reading xs current
    by_frame cut e again = record { sentences = []; left = current; remaining = xs; reads = stop e }
    by_frame (terminator rest) e again =
        let (k, d, shorter) = terminator_shorter xs e in
        let r = again rest [] (omega arith) (IsTame-drop k xs d t) in
        record {
          sentences = flush [] current ++ r.sentences;
          left = r.left;
          remaining = r.remaining;
          reads = close e refl r.reads;
        }
    by_frame (word w rest) e again =
        let (k, d, shorter) = word_shorter xs e in
        let r = again rest (current ++ (w ∷ [])) (omega arith) (IsTame-drop k xs d t) in
        record {
          sentences = r.sentences;
          left = r.left;
          remaining = r.remaining;
          reads = more e refl r.reads;
        }
    by_frame runaway e again = absurd (t 0 e)

pub tame-Reading : (xs : Buffer) → IsTame xs → Reading xs []
tame-Reading xs t = reading (suc (length xs)) xs [] (omega arith) t

-- On bytes in which no length prefix, wherever one is read, has its sign bit set, `decodeWords`
-- returns: its loop ends, with at most one round for each byte and one more.
pub decode_words_total :
    (buf : Buffer) → All IsByte buf → IsTame buf → (d : Decoded) × (decode_words buf ≡ some d)
decode_words_total buf bytes t =
    let r = tame-Reading buf t in
    (
      record { sentences = r.sentences; remaining = r.remaining },
      decode_words-Reads buf bytes r.reads,
    )

small_prefix : (xs : Buffer) → All (λ b. b < 0xf0) xs → frame_of xs (read_length xs) ≢ runaway
unfolding read_length
small_prefix [] h e = cc
small_prefix (a ∷ []) h e = ground arith
small_prefix (a ∷ b ∷ []) h e = ground arith
small_prefix (a ∷ b ∷ c ∷ []) h e = ground arith
small_prefix (a ∷ b ∷ c ∷ d ∷ []) h e = ground arith
small_prefix (a ∷ b ∷ c ∷ d ∷ f ∷ rest) h e = ground arith

-- Bytes below 0xf0 are tame.
pub below_f0-IsTame : (buf : Buffer) → All (λ b. b < 0xf0) buf → IsTame buf
unfolding frame
below_f0-IsTame buf h o = small_prefix (drop o buf) (All-drop (λ b. b < 0xf0) o buf h)
