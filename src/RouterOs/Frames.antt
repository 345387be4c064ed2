-- ===== src/RouterOs/Frames.antt =====
-- What `decodeWords` of apps/api/src/lib/routeros-api.ts reads, described with no offsets: the
-- frame at the head of a stream, and the relation that a run of frames builds.
use mikrotikbandwidthmonitor.Prelude.{
  ℕ, zero, suc, ◌+◌, ◌-◌, ◌≤◌, ◌<◌, ◌≡◌, refl, sym, ap, ◌∙◌, true, false, Option, none, some, List,
  [], ◌∷◌, ◌++◌, leb, ◌==◌, if◌then◌else◌, length, take, drop, length-drop, All, arith,
}
use native.Mathlib.Nat.{zero-add, suc-add}
use mikrotikbandwidthmonitor.Prelude.Utf8.{to_string}
use mikrotikbandwidthmonitor.Prelude.Int.{ℤ, pos, negsuc, ◌+ℤ◌, ltb_ℤ}
use mikrotikbandwidthmonitor.Prelude.Bytes.{Buffer, Text, IsByte}
use mikrotikbandwidthmonitor.RouterOs.Wire.{flush, decode_loop, decode_length}
use mikrotikbandwidthmonitor.RouterOs.Length.{read_length, decode_length_at, read_length_takes}

pub data Frame : Type 0 where
  cut : Frame
  terminator : Buffer → Frame
  word : Text → Buffer → Frame
  runaway : Frame

abbrev pub frame_of : Buffer → Option (ℤ × ℕ) → Frame
frame_of xs none = cut
frame_of xs (some (pos n, k)) =
    if n == 0
    then terminator (drop k xs)
    else if leb (k + n) (length xs)
    then word (to_string (take n (drop k xs))) (drop (k + n) xs)
    else cut
frame_of xs (some (negsuc n, k)) = runaway

-- `cut`: not enough bytes. `runaway`: a length with its sign bit set.
unfoldable pub frame : Buffer → Frame
frame xs = frame_of xs (read_length xs)

-- `Reads xs current sentences left remaining`: from `xs`, with the words `current` of an open
-- sentence, the frames make `sentences`, leave the words `left` open and the bytes `remaining`.
pub data Reads : Buffer → List Text → List (List Text) → List Text → Buffer → Type 0 where
  stop : {xs : Buffer} {current : List Text} → frame xs ≡ cut → Reads xs current [] current xs
  close :
      {xs rest remaining : Buffer} {current left : List Text} {sentences all : List (List Text)}
      → frame xs ≡ terminator rest
      → all ≡ flush [] current ++ sentences
      → Reads rest [] sentences left remaining
      → Reads xs current all left remaining
  more :
      {xs rest remaining : Buffer} {w : Text} {current longer left : List Text}
      {sentences : List (List Text)}
      → frame xs ≡ word w rest
      → longer ≡ current ++ (w ∷ [])
      → Reads rest longer sentences left remaining
      → Reads xs current sentences left remaining

pub drop-drop {ℓ} : {A : Type ℓ} (o k : ℕ) (xs : List A) → drop k (drop o xs) ≡ drop (o + k) xs
drop-drop zero k xs = rw zero-add
drop-drop (suc o) zero [] = rw suc-add
drop-drop (suc o) (suc k) [] = rw suc-add
drop-drop (suc o) k (x ∷ xs) = rw suc-add (drop-drop o k xs)

pub frame_of-eq-terminator :
    (xs : Buffer) (r : Option (ℤ × ℕ)) {rest : Buffer}
    → frame_of xs r ≡ terminator rest
    → (k : ℕ) × (r ≡ some (pos 0, k)) × (drop k xs ≡ rest)
frame_of-eq-terminator xs none e = cc
frame_of-eq-terminator xs (some (pos n, k)) e = (k, ground arith, ground arith)
frame_of-eq-terminator xs (some (negsuc n, k)) e = cc

pub frame_of-eq-word :
    (xs : Buffer) (r : Option (ℤ × ℕ)) {w : Text} {rest : Buffer}
    → frame_of xs r ≡ word w rest
    → (n k : ℕ) × (r ≡ some (pos n, k))
      × (0 < n)
      × (k + n ≤ length xs)
      × (to_string (take n (drop k xs)) ≡ w)
      × (drop (k + n) xs ≡ rest)
frame_of-eq-word xs none e = cc
frame_of-eq-word xs (some (pos n, k)) e =
    (n, k, refl, ground arith, ground arith, ground arith, ground arith)
frame_of-eq-word xs (some (negsuc n, k)) e = cc

pos-+ℤ : (a k : ℕ) → pos a +ℤ pos k ≡ pos (a + k)
pos-+ℤ a k = ground arith

-- One round of the loop at an offset inside the buffer, by the length that stands there.
module _ (fuel o k : ℕ) (buf : Buffer) (current : List Text) (sentences : List (List Text)) where
  step_zero :
      o < length buf
      → decode_length buf (pos o) ≡ some (pos 0, k)
      → decode_loop (suc fuel) buf (pos o) current sentences
        ≡ decode_loop fuel buf (pos (o + k)) [] (flush sentences current)
  unfolding decode_loop
  step_zero h e = ground (arith, pos-+ℤ o k)

  step_word :
      (n : ℕ)
      → 0 < n
      → o + (k + n) ≤ length buf
      → 0 < k
      → decode_length buf (pos o) ≡ some (pos n, k)
      → decode_loop (suc fuel) buf (pos o) current sentences
        ≡ decode_loop fuel buf
            (pos (o + (k + n)))
            (current ++ (to_string (take n (drop (o + k) buf)) ∷ []))
            sentences
  unfolding decode_loop
  step_word n h fits positive e =
      let t : ltb_ℤ (pos o) (pos (length buf)) ≡ true = ground arith in
      let z : (n == 0) ≡ false = ground arith in
      let end : pos o +ℤ pos k +ℤ pos n ≡ pos (o + (k + n)) =
        rw (pos-+ℤ o k, pos-+ℤ (o + k) n) (ap pos (omega arith)) in
      let l : ltb_ℤ (pos (length buf)) (pos o +ℤ pos k +ℤ pos n) ≡ false = rw end (ground arith) in
      let d : o + (k + n) - (o + k) ≡ n = omega arith in
      rw (t, decode_loop)
        (rw (e, decode_loop) (rw (z, decode_loop) (rw (l, decode_loop) (rw (end, pos-+ℤ o k, d)))))

-- The same, by the frame.
module _ (fuel o : ℕ) (buf : Buffer) (current : List Text) (sentences : List (List Text))
    (bytes : All IsByte buf) (inside : o ≤ length buf) where
  pub loop_cut :
      frame (drop o buf) ≡ cut
      → decode_loop (suc fuel) buf (pos o) current sentences
        ≡ some (record { sentences = sentences; current = current; offset = pos o })
  unfolding decode_loop frame
  loop_cut e = ground (arith, decode_length_at buf o, length-drop o buf)

  pub loop_close :
      {rest : Buffer}
      → frame (drop o buf) ≡ terminator rest
      → (k : ℕ) × (drop (o + k) buf ≡ rest)
        × (0 < k)
        × (o + k ≤ length buf)
        × (decode_loop (suc fuel) buf (pos o) current sentences
            ≡ decode_loop fuel buf (pos (o + k)) [] (flush sentences current))
  unfolding decode_loop frame
  loop_close {rest} e =
      let (k, r, d) = frame_of-eq-terminator (drop o buf) (read_length (drop o buf)) e in
      let (some_byte, fits) = read_length_takes (drop o buf) r in
      let decoded : decode_length buf (pos o) ≡ some (pos 0, k) =
        decode_length_at buf o bytes inside ∙ r in
      let len = length-drop o buf in
      (
        k,
        sym (drop-drop o k buf) ∙ d,
        some_byte,
        omega arith,
        step_zero fuel o k buf current sentences (omega arith) decoded,
      )

  pub loop_more :
      {w : Text} {rest : Buffer}
      → frame (drop o buf) ≡ word w rest
      → (k : ℕ) × (drop (o + k) buf ≡ rest)
        × (0 < k)
        × (o + k ≤ length buf)
        × (decode_loop (suc fuel) buf (pos o) current sentences
            ≡ decode_loop fuel buf (pos (o + k)) (current ++ (w ∷ [])) sentences)
  unfolding decode_loop frame
  loop_more {w} {rest} e =
      let (n, k, r, positive, fits, taken, d) =
        frame_of-eq-word (drop o buf) (read_length (drop o buf)) e in
      let (some_byte, within) = read_length_takes (drop o buf) r in
      let decoded : decode_length buf (pos o) ≡ some (pos n, k) =
        decode_length_at buf o bytes inside ∙ r in
      let len = length-drop o buf in
      (
        k + n,
        sym (drop-drop o (k + n) buf) ∙ d,
        omega arith,
        omega arith,
        step_word fuel o k buf current sentences n positive (omega arith) some_byte decoded
            ∙ ap (λ t. decode_loop fuel buf (pos (o + (k + n))) (current ++ (t ∷ [])) sentences)
                (ap (λ b. to_string (take n b)) (sym (drop-drop o k buf)) ∙ taken),
      )
