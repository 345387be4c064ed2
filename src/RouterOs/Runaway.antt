-- ===== src/RouterOs/Runaway.antt =====
-- A length with its sign bit set: `decodeWords` of apps/api/src/lib/routeros-api.ts need not end.
use mikrotikbandwidthmonitor.Prelude.{
  ℕ, zero, suc, ◌≡◌, refl, ◌∙◌, true, false, none, some, List, [], ◌∷◌, length, All, All-append,
  arith,
}
use mikrotikbandwidthmonitor.Prelude.Int.{pos, negsuc, ltb_ℤ}
use mikrotikbandwidthmonitor.Prelude.Bytes.{Buffer, Text, IsByte}
use mikrotikbandwidthmonitor.RouterOs.Wire.{decode_loop, decode_length}
use mikrotikbandwidthmonitor.RouterOs.Length.{read_length, decode_length_at}

-- The five bytes stand for the length -5: the loop steps back to where it was.
abbrev pub minus_five : Buffer → Buffer
minus_five rest = 0xf0 ∷ 0xff ∷ 0xff ∷ 0xff ∷ 0xfb ∷ rest

decoded_minus_five :
    (rest : Buffer) → All IsByte rest → decode_length (minus_five rest) (pos 0) ≡ some (negsuc 4, 5)
decoded_minus_five rest h =
    decode_length_at (minus_five rest) 0 (All-append IsByte (minus_five []) rest (omega arith) h)
      (omega arith)
    ∙ unfold read_length in refl

-- On a buffer that starts with the bytes f0 ff ff ff fb the loop never ends, however many rounds it
-- is given and whatever follows.
pub decode_loop_diverges :
    (fuel : ℕ) (rest : Buffer) (current : List Text) (sentences : List (List Text))
    → All IsByte rest
    → decode_loop fuel (minus_five rest) (pos 0) current sentences ≡ none
unfolding decode_loop
decode_loop_diverges zero rest current sentences h = refl
decode_loop_diverges (suc fuel) rest current sentences h =
    let t : ltb_ℤ (pos 0) (pos (length (minus_five rest))) ≡ true = ground arith in
    let l : ltb_ℤ (pos (length (minus_five rest))) (pos 0) ≡ false = ground arith in
    rw (t, decode_loop)
      (rw (decoded_minus_five rest h, decode_loop)
        (rw (l, decode_loop) (decode_loop_diverges fuel rest _ sentences h)))
