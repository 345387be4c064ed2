-- ===== src/Prelude/Utf8.antt =====
-- `buf.toString('utf-8')` of the runtime: a text is its UTF-8 encoding, and each part of the bytes that
-- cannot be decoded becomes one U+FFFD, as the Encoding Standard has it.
use mikrotikbandwidthmonitor.Prelude.{
  ℕ, ◌-◌, ◌<◌, ◌≡◌, refl, [], ◌∷◌, ◌++◌, ltb, leb, ◌==◌, ◌&&◌, if◌then◌else◌, All, arith,
}
use mikrotikbandwidthmonitor.Prelude.Bytes.{Buffer, Text}

-- Between two characters, or within one: the bytes that were read, the count of those to come, and
-- the bounds of the next one.
pub data Decoder : Type 0 where
  between : Decoder
  within : (read : Buffer) (needed low high : ℕ) → Decoder

abbrev pub replacement : Text
replacement = 0xef ∷ 0xbf ∷ 0xbd ∷ []

-- The first byte of a character
abbrev pub first_byte : ℕ → Text × Decoder
first_byte b =
    if ltb b 0x80
    then (b ∷ [], between)
    else if ltb b 0xc2
    then (replacement, between)
    else if ltb b 0xe0
    then ([], within (b ∷ []) 1 0x80 0xbf)
    else if b == 0xe0
    then ([], within (b ∷ []) 2 0xa0 0xbf)
    else if b == 0xed
    then ([], within (b ∷ []) 2 0x80 0x9f)
    else if ltb b 0xf0
    then ([], within (b ∷ []) 2 0x80 0xbf)
    else if b == 0xf0
    then ([], within (b ∷ []) 3 0x90 0xbf)
    else if ltb b 0xf4
    then ([], within (b ∷ []) 3 0x80 0xbf)
    else if b == 0xf4
    then ([], within (b ∷ []) 3 0x80 0x8f)
    else (replacement, between)

abbrev behind_replacement : Text × Decoder → Text × Decoder
behind_replacement (s, d) = (replacement ++ s, d)

unfoldable pub feed : Decoder → ℕ → Text × Decoder
feed between b = first_byte b
feed (within read needed low high) b =
    if leb low b && leb b high
    then (if needed == 1
        then (read ++ (b ∷ []), between)
        else ([], within (read ++ (b ∷ [])) (needed - 1) 0x80 0xbf))
    else behind_replacement (first_byte b)

abbrev at_end : Decoder → Text
at_end between = []
at_end (within read needed low high) = replacement

unfoldable pub decode_from : Decoder → Buffer → Text
unfolding feed
decode_from d [] = at_end d
decode_from d (b ∷ buf) = let (s, d') = feed d b in s ++ decode_from d' buf

unfoldable pub to_string : Buffer → Text
unfolding decode_from
to_string buf = decode_from between buf

-- Bytes of ASCII are a text as they stand.
pub to_string-ascii : (s : Buffer) → All (λ b. b < 0x80) s → to_string s ≡ s
unfolding to_string decode_from feed
to_string-ascii [] h = refl
to_string-ascii (b ∷ s) (hb, h) = ground (arith, to_string-ascii s h)
