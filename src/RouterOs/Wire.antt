-- ===== src/RouterOs/Wire.antt =====
-- The wire format of apps/api/src/lib/routeros-api.ts: lengths, words and sentences as bytes.
-- `&`, `|` and `<<` work on patterns of 32 bits; `int32` gives the signed number of a pattern.
-- The loop of `decodeWords` takes fuel; `none` means that the fuel ran out.
use mikrotikbandwidthmonitor.Prelude.{
  ℕ, zero, suc, ◌*◌, ◌/◌, ◌%◌, ◌^◌, Bool, true, false, Option, none, some, List, [], ◌∷◌, ◌++◌, map,
  ltb, ◌==◌, if◌then◌else◌, length,
}
use mikrotikbandwidthmonitor.Prelude.Utf8.{to_string}
use mikrotikbandwidthmonitor.Prelude.Bits.{bit_and, bit_or}
use mikrotikbandwidthmonitor.Prelude.Int.{ℤ, pos, negsuc, ◌+ℤ◌, leb_ℤ, ltb_ℤ, int32}
use mikrotikbandwidthmonitor.Prelude.Bytes.{Buffer, Text, byte_at, subarray, subarray_from}

-- `x >> k` of a number that is not negative, and `x << k` as a pattern
abbrev pub shr : ℕ → ℕ → ℕ
shr x k = x / 2 ^ k

abbrev pub shl : ℕ → ℕ → ℕ
shl x k = x * 2 ^ k % 2 ^ 32

unfoldable pub encode_length : ℕ → Buffer
encode_length len =
    if ltb len 0x80
    then len ∷ []
    else if ltb len 0x4000
    then bit_or (bit_and (shr len 8) 0x3f) 0x80 ∷ bit_and len 0xff ∷ []
    else if ltb len 0x200000
    then bit_or (bit_and (shr len 16) 0x1f) 0xc0 ∷ bit_and (shr len 8) 0xff ∷ bit_and len 0xff ∷ []
    else if ltb len 0x10000000
    then bit_or (bit_and (shr len 24) 0x0f) 0xe0
      ∷ bit_and (shr len 16) 0xff
      ∷ bit_and (shr len 8) 0xff
      ∷ bit_and len 0xff
      ∷ []
    else 0xf0
      ∷ bit_and (shr len 24) 0xff
      ∷ bit_and (shr len 16) 0xff
      ∷ bit_and (shr len 8) 0xff
      ∷ bit_and len 0xff
      ∷ []

unfoldable pub encode_word : Text → Buffer
encode_word word = encode_length (length word) ++ word

abbrev pub concat : List Buffer → Buffer
concat [] = []
concat (p ∷ ps) = p ++ concat ps

unfoldable pub encode_sentence : List Text → Buffer
encode_sentence words = concat (map encode_word words ++ (encode_length 0 ∷ []))

-- `undefined` in a bit operation is 0, and every comparison with it is false.
abbrev pub bits : Option ℕ → ℕ
bits none = 0
bits (some b) = b

abbrev pub below : Option ℕ → ℕ → Bool
below none k = false
below (some b) k = ltb b k

-- `offset + k >= buf.length`
unfoldable pub past_end : Buffer → ℤ → ℕ → Bool
past_end buf offset k = leb_ℤ (pos (length buf)) (offset +ℤ pos k)

unfoldable pub bits_at : Buffer → ℤ → ℕ → ℕ
bits_at buf offset k = bits (byte_at buf (offset +ℤ pos k))

unfoldable pub decode_length : Buffer → ℤ → Option (ℤ × ℕ)
decode_length buf offset =
    let b = byte_at buf offset in
    if past_end buf offset 0
    then none
    else if below b 0x80
    then some (pos (bits b), 1)
    else if past_end buf offset 1
    then none
    else if bit_and (bits b) 0xc0 == 0x80
    then some (int32 (bit_or (shl (bit_and (bits b) 0x3f) 8) (bits_at buf offset 1)), 2)
    else if past_end buf offset 2
    then none
    else if bit_and (bits b) 0xe0 == 0xc0
    then some (
      int32 (
          bit_or (bit_or (shl (bit_and (bits b) 0x1f) 16) (shl (bits_at buf offset 1) 8))
            (bits_at buf offset 2)),
      3,
    )
    else if past_end buf offset 3
    then none
    else if bit_and (bits b) 0xf0 == 0xe0
    then some (
      int32 (
          bit_or
            (bit_or (bit_or (shl (bit_and (bits b) 0x0f) 24) (shl (bits_at buf offset 1) 16))
              (shl (bits_at buf offset 2) 8))
            (bits_at buf offset 3)),
      4,
    )
    else if past_end buf offset 4
    then none
    else some (
      int32 (
          bit_or
            (bit_or (bit_or (shl (bits_at buf offset 1) 24) (shl (bits_at buf offset 2) 16))
              (shl (bits_at buf offset 3) 8))
            (bits_at buf offset 4)),
      5,
    )

-- The locals of `decodeWords` when its loop ends.
pub record Locals : Type 0 where
  pub sentences : List (List Text)
  pub current : List Text
  pub offset : ℤ

-- What `decodeWords` returns.
pub record Decoded : Type 0 where
  pub sentences : List (List Text)
  pub remaining : Buffer

abbrev pub flush : List (List Text) → List Text → List (List Text)
flush sentences [] = sentences
flush sentences (w ∷ ws) = sentences ++ ((w ∷ ws) ∷ [])

abbrev pub is_zero : ℤ → Bool
is_zero (pos n) = n == 0
is_zero (negsuc n) = false

-- The `while` loop of `decodeWords`.
unfoldable pub decode_loop : ℕ → Buffer → ℤ → List Text → List (List Text) → Option Locals
decode_loop zero buf offset current sentences = none
decode_loop (suc fuel) buf offset current sentences = elim (ltb_ℤ offset (pos (length buf))) [
  | false ↦ some (record { sentences = sentences; current = current; offset = offset })
  | true ↦ elim (decode_length buf offset) [
    | none ↦ some (record { sentences = sentences; current = current; offset = offset })
    | some (word_len, len_bytes) ↦ elim (is_zero word_len) [
      | true ↦ decode_loop fuel buf (offset +ℤ pos len_bytes) [] (flush sentences current)
      | false ↦ elim (ltb_ℤ (pos (length buf)) (offset +ℤ pos len_bytes +ℤ word_len)) [
        | true ↦ some (record { sentences = sentences; current = current; offset = offset })
        | false ↦
            decode_loop fuel buf (offset +ℤ pos len_bytes +ℤ word_len)
              (current
                ++ (to_string
                      (subarray buf (offset +ℤ pos len_bytes) (offset +ℤ pos len_bytes +ℤ word_len))
                    ∷ []))
              sentences
      ]
    ]
  ]
]

abbrev pub returned : Buffer → Locals → Decoded
returned buf l = record { sentences = l.sentences; remaining = subarray_from buf l.offset }

-- Rounds that suffice for a buffer whose lengths are not negative: each round takes a byte at
-- least, and the last one takes none.
abbrev pub rounds : Buffer → ℕ
rounds buf = suc (length buf)

unfoldable pub decode_words : Buffer → Option Decoded
unfolding decode_loop decode_length
decode_words buf = elim (decode_loop (rounds buf) buf (pos 0) [] []) [
  | none ↦ none
  | some l ↦ some (returned buf l)
]
