-- ===== src/RouterOs/Length.antt =====
-- The length prefix of apps/api/src/lib/routeros-api.ts (`encodeLength`, `decodeLength`) in plain
-- arithmetic, and what is decoded from what is encoded.
pub mod Masks
pub mod Protocol
use native.Mathlib.Nat.{zero-add, suc-add}
use mikrotikbandwidthmonitor.Prelude.{
  ℕ, ◌+◌, ◌-◌, ◌*◌, ◌/◌, ◌%◌, ◌^◌, ◌≤◌, ◌<◌, ◌≡◌, refl, sym, ap, ◌∙◌, false, Option, none, some,
  List, [], ◌∷◌, ◌++◌, ltb, ◌==◌, ==_iff, if◌then◌else◌, length, get_elem?, length-append, All,
  All-append, All-drop, take, drop, length-take, take-append-drop, arith,
}
use mikrotikbandwidthmonitor.Prelude.Bits.{bit_and, bit_or, low_byte, or_shifted, all_below_sound}
use mikrotikbandwidthmonitor.Prelude.Int.{ℤ, pos, ◌+ℤ◌, int32}
use mikrotikbandwidthmonitor.Prelude.Bytes.{Buffer, IsByte}
use mikrotikbandwidthmonitor.RouterOs.Length.Masks.{
  mask_c0, mask_e0, mask_f0, mask_3f, mask_1f, mask_0f, join_two, join_three, join_four,
  past_end-append, bits_at-append, byte_at-append,
}
use mikrotikbandwidthmonitor.RouterOs.Wire.{
  shl, shr, encode_length, past_end, bits_at, decode_length,
}

-- What `decodeLength` reads, with no masks: the value, for five bytes the signed number of their 32
-- bits, and the count of bytes that it takes.
abbrev five_bytes : ℕ → ℕ → ℕ → Buffer → Option (ℤ × ℕ)
five_bytes b c d [] = none
five_bytes b c d (e ∷ _) = some (int32 (b * 2 ^ 24 + c * 2 ^ 16 + d * 2 ^ 8 + e), 5)

abbrev four_bytes : ℕ → ℕ → ℕ → Buffer → Option (ℤ × ℕ)
four_bytes a b c [] = none
four_bytes a b c (d ∷ rest) =
    if ltb a 0xf0
    then some (pos ((a - 0xe0) * 2 ^ 24 + b * 2 ^ 16 + c * 2 ^ 8 + d), 4)
    else five_bytes b c d rest

abbrev three_bytes : ℕ → ℕ → Buffer → Option (ℤ × ℕ)
three_bytes a b [] = none
three_bytes a b (c ∷ rest) =
    if ltb a 0xe0
    then some (pos ((a - 0xc0) * 2 ^ 16 + b * 2 ^ 8 + c), 3)
    else four_bytes a b c rest

abbrev two_bytes : ℕ → Buffer → Option (ℤ × ℕ)
two_bytes a [] = none
two_bytes a (b ∷ rest) =
    if ltb a 0xc0 then some (pos ((a - 0x80) * 2 ^ 8 + b), 2) else three_bytes a b rest

unfoldable pub read_length : Buffer → Option (ℤ × ℕ)
read_length [] = none
read_length (a ∷ rest) = if ltb a 0x80 then some (pos a, 1) else two_bytes a rest

-- `decodeLength` looks only at the bytes from its offset on.
pub decode_length-append :
    (front xs : Buffer)
    → decode_length (front ++ xs) (pos (length front)) ≡ decode_length xs (pos 0)
unfolding decode_length
decode_length-append front xs = simp (byte_at-append, past_end-append, bits_at-append)

-- The value of each form.
value_two :
    (a b : ℕ)
    → a < 0xc0
    → b < 256
    → 0x80 ≤ a
    → int32 (bit_or (shl (bit_and a 0x3f) 8) b) ≡ pos ((a - 0x80) * 2 ^ 8 + b)
value_two a b p q r =
    let e : bit_and a 0x3f ≡ a - 0x80 = mask_3f a (omega arith) ∙ omega arith in
    rw (e, join_two (a - 0x80) b (omega arith) q) (ground arith)

value_three :
    (a b c : ℕ)
    → a < 0xe0
    → b < 256
    → c < 256
    → 0xc0 ≤ a
    → int32 (bit_or (bit_or (shl (bit_and a 0x1f) 16) (shl b 8)) c)
      ≡ pos ((a - 0xc0) * 2 ^ 16 + b * 2 ^ 8 + c)
value_three a b c p q r s =
    let e : bit_and a 0x1f ≡ a - 0xc0 = mask_1f a (omega arith) ∙ omega arith in
    rw (e, join_three (a - 0xc0) b c (omega arith) q r) (ground arith)

value_four :
    (a b c d : ℕ)
    → a < 0xf0
    → b < 256
    → c < 256
    → d < 256
    → 0xe0 ≤ a
    → int32 (bit_or (bit_or (bit_or (shl (bit_and a 0x0f) 24) (shl b 16)) (shl c 8)) d)
      ≡ pos ((a - 0xe0) * 2 ^ 24 + b * 2 ^ 16 + c * 2 ^ 8 + d)
value_four a b c d p q r s t =
    let e : bit_and a 0x0f ≡ a - 0xe0 = mask_0f a (omega arith) ∙ omega arith in
    rw (e, join_four (a - 0xe0) b c d (omega arith) q r s) (ground arith)

not_past_end : (xs : Buffer) (k : ℕ) → k < length xs → past_end xs (pos 0) k ≡ false
unfolding past_end
not_past_end xs k h = ground arith

decode_of_five :
    (a b c d e : ℕ) (rest : Buffer)
    → All IsByte (a ∷ b ∷ c ∷ d ∷ e ∷ [])
    → decode_length (a ∷ b ∷ c ∷ d ∷ e ∷ rest) (pos 0) ≡ read_length (a ∷ b ∷ c ∷ d ∷ e ∷ rest)
unfolding decode_length read_length bits_at
decode_of_five a b c d e rest h =
    let xs : Buffer = a ∷ b ∷ c ∷ d ∷ e ∷ rest in
    rw
      (
        not_past_end xs 0 (omega arith),
        not_past_end xs 1 (omega arith),
        not_past_end xs 2 (omega arith),
        not_past_end xs 3 (omega arith),
        not_past_end xs 4 (omega arith),
        mask_c0 a h.0,
        mask_e0 a h.0,
        mask_f0 a h.0,
      )
      (ground (arith, value_two a b, value_three a b c, value_four a b c d, join_four b c d e))

-- The masks and shifts of `decodeLength` do what `read_length` does.
pub decode_length-read_length :
    (xs : Buffer) → All IsByte xs → decode_length xs (pos 0) ≡ read_length xs
unfolding decode_length read_length past_end bits_at
decode_length-read_length [] h = refl
decode_length-read_length (a ∷ []) h = ground arith
decode_length-read_length (a ∷ b ∷ []) h = ground (arith, mask_c0 a, value_two a b)
decode_length-read_length (a ∷ b ∷ c ∷ []) h =
    ground (arith, mask_c0 a, value_two a b, mask_e0 a, value_three a b c)
decode_length-read_length (a ∷ b ∷ c ∷ d ∷ []) h =
    ground
      (arith, mask_c0 a, value_two a b, mask_e0 a, value_three a b c, mask_f0 a, value_four a b c d)
decode_length-read_length (a ∷ b ∷ c ∷ d ∷ e ∷ rest) h = decode_of_five a b c d e rest (omega arith)

first_of_two : (x : ℕ) → x < 64 → bit_or (bit_and x 0x3f) 0x80 ≡ x + 0x80
first_of_two x h =
    (==_iff _ _).0 (all_below_sound 64 (λ x. bit_or (bit_and x 0x3f) 0x80 == x + 0x80) x refl h)

first_of_three : (x : ℕ) → x < 32 → bit_or (bit_and x 0x1f) 0xc0 ≡ x + 0xc0
first_of_three x h =
    (==_iff _ _).0 (all_below_sound 32 (λ x. bit_or (bit_and x 0x1f) 0xc0 == x + 0xc0) x refl h)

first_of_four : (x : ℕ) → x < 16 → bit_or (bit_and x 0x0f) 0xe0 ≡ x + 0xe0
first_of_four x h =
    (==_iff _ _).0 (all_below_sound 16 (λ x. bit_or (bit_and x 0x0f) 0xe0 == x + 0xe0) x refl h)

-- What `encodeLength` writes, in plain arithmetic.
pub encode_length_lem :
    (n : ℕ)
    → n < 2 ^ 32
    → encode_length n ≡ (
        if ltb n 0x80
        then n ∷ []
        else if ltb n 0x4000
        then (n / 2 ^ 8 + 0x80) ∷ n % 256 ∷ []
        else if ltb n 0x200000
        then (n / 2 ^ 16 + 0xc0) ∷ n / 2 ^ 8 % 256 ∷ n % 256 ∷ []
        else if ltb n 0x10000000
        then (n / 2 ^ 24 + 0xe0) ∷ n / 2 ^ 16 % 256 ∷ n / 2 ^ 8 % 256 ∷ n % 256 ∷ []
        else 0xf0 ∷ n / 2 ^ 24 % 256 ∷ n / 2 ^ 16 % 256 ∷ n / 2 ^ 8 % 256 ∷ n % 256 ∷ [])
unfolding encode_length
encode_length_lem n h = ground (
  arith,
  low_byte n,
  low_byte (shr n 8),
  low_byte (shr n 16),
  low_byte (shr n 24),
  first_of_two (n / 2 ^ 8),
  first_of_three (n / 2 ^ 16),
  first_of_four (n / 2 ^ 24),
)

pub encode_length-IsByte : (n : ℕ) → n < 2 ^ 32 → All IsByte (encode_length n)
encode_length-IsByte n h = rw (encode_length_lem n h) (ground arith)

-- A prefix that `encodeLength` wrote is read back, whatever follows.
pub read_length-encode_length :
    (n : ℕ) (rest : Buffer)
    → n < 2 ^ 32
    → read_length (encode_length n ++ rest) ≡ some (int32 n, length (encode_length n))
unfolding read_length
read_length-encode_length n rest h = rw (encode_length_lem n h) (ground arith)

-- A prefix takes a byte at least, and no more than there are.
pub read_length_takes :
    (xs : Buffer) {v : ℤ} {k : ℕ} → read_length xs ≡ some (v, k) → (1 ≤ k) × (k ≤ length xs)
unfolding read_length
read_length_takes [] e = cc
read_length_takes (a ∷ []) e = ground arith
read_length_takes (a ∷ b ∷ []) e = ground arith
read_length_takes (a ∷ b ∷ c ∷ []) e = ground arith
read_length_takes (a ∷ b ∷ c ∷ d ∷ []) e = ground arith
read_length_takes (a ∷ b ∷ c ∷ d ∷ f ∷ rest) e = ground arith

-- Bytes behind a whole prefix do not change it.
pub read_length-append :
    (xs ys : Buffer) {p : ℤ × ℕ} → read_length xs ≡ some p → read_length (xs ++ ys) ≡ some p
unfolding read_length
read_length-append [] ys e = cc
read_length-append (a ∷ []) ys e = ground arith
read_length-append (a ∷ b ∷ []) ys e = ground arith
read_length-append (a ∷ b ∷ c ∷ []) ys e = ground arith
read_length-append (a ∷ b ∷ c ∷ d ∷ []) ys e = ground arith
read_length-append (a ∷ b ∷ c ∷ d ∷ f ∷ rest) ys e = ground arith

-- Inside a buffer `decodeLength` reads the format at its offset.
pub decode_length_at :
    (buf : Buffer) (o : ℕ)
    → All IsByte buf
    → o ≤ length buf
    → decode_length buf (pos o) ≡ read_length (drop o buf)
decode_length_at buf o h le =
    let e : length (take o buf) ≡ o = length-take o buf ∙ omega arith in
    ap (λ b. decode_length b (pos o)) (sym (take-append-drop o buf))
    ∙ ap (λ k. decode_length (take o buf ++ drop o buf) (pos k)) (sym e)
    ∙ decode_length-append (take o buf) (drop o buf)
    ∙ decode_length-read_length (drop o buf) (All-drop IsByte o buf h)

-- Wherever it stands in a buffer, a prefix that `encodeLength` wrote for a number below 2 ^ 32 is
-- read back by `decodeLength`, as a signed number, with the count of its bytes.
decode_length-encode_length :
    (front rest : Buffer) (n : ℕ)
    → All IsByte rest
    → n < 2 ^ 32
    → decode_length (front ++ (encode_length n ++ rest)) (pos (length front))
      ≡ some (int32 n, length (encode_length n))
decode_length-encode_length front rest n h lt =
    decode_length-append front (encode_length n ++ rest)
    ∙ decode_length-read_length (encode_length n ++ rest)
        (All-append IsByte (encode_length n) rest (encode_length-IsByte n lt) h)
    ∙ read_length-encode_length n rest lt
