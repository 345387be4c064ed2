-- ===== src/RouterOs/Length/Masks.antt =====
-- The masks and shifts of `decodeLength` (apps/api/src/lib/routeros-api.ts) in plain arithmetic, and its
-- reads of a buffer.
use native.Mathlib.Nat.{zero-add, suc-add}
use mikrotikbandwidthmonitor.Prelude.{
  ℕ, ◌+◌, ◌*◌, ◌/◌, ◌%◌, ◌^◌, ◌<◌, ◌≡◌, refl, List, [], ◌∷◌, ◌++◌, ◌==◌, ==_iff, length, get_elem?,
  length-append, arith,
}
use mikrotikbandwidthmonitor.Prelude.Bits.{bit_and, bit_or, or_shifted, all_below_sound}
use mikrotikbandwidthmonitor.Prelude.Int.{pos, ◌+ℤ◌}
use mikrotikbandwidthmonitor.Prelude.Bytes.{Buffer}
use mikrotikbandwidthmonitor.RouterOs.Wire.{shl, past_end, bits_at}

-- The masks on one byte.
pub mask_c0 : (b : ℕ) → b < 256 → bit_and b 0xc0 ≡ b / 64 * 64
mask_c0 b h = (==_iff _ _).0 (all_below_sound 256 (λ x. bit_and x 0xc0 == x / 64 * 64) b refl h)

pub mask_e0 : (b : ℕ) → b < 256 → bit_and b 0xe0 ≡ b / 32 * 32
mask_e0 b h = (==_iff _ _).0 (all_below_sound 256 (λ x. bit_and x 0xe0 == x / 32 * 32) b refl h)

pub mask_f0 : (b : ℕ) → b < 256 → bit_and b 0xf0 ≡ b / 16 * 16
mask_f0 b h = (==_iff _ _).0 (all_below_sound 256 (λ x. bit_and x 0xf0 == x / 16 * 16) b refl h)

pub mask_3f : (b : ℕ) → b < 256 → bit_and b 0x3f ≡ b % 64
mask_3f b h = (==_iff _ _).0 (all_below_sound 256 (λ x. bit_and x 0x3f == x % 64) b refl h)

pub mask_1f : (b : ℕ) → b < 256 → bit_and b 0x1f ≡ b % 32
mask_1f b h = (==_iff _ _).0 (all_below_sound 256 (λ x. bit_and x 0x1f == x % 32) b refl h)

pub mask_0f : (b : ℕ) → b < 256 → bit_and b 0x0f ≡ b % 16
mask_0f b h = (==_iff _ _).0 (all_below_sound 256 (λ x. bit_and x 0x0f == x % 16) b refl h)

-- Bytes joined by `<<` and `|`.
pub join_two : (a b : ℕ) → a < 256 → b < 256 → bit_or (shl a 8) b ≡ a * 2 ^ 8 + b
join_two a b p q = let e : shl a 8 ≡ a * 2 ^ 8 = omega arith in rw e (or_shifted 8 a b q)

pub join_three :
    (a b c : ℕ)
    → a < 256
    → b < 256
    → c < 256
    → bit_or (bit_or (shl a 16) (shl b 8)) c ≡ a * 2 ^ 16 + b * 2 ^ 8 + c
join_three a b c p q r =
    let e : shl a 16 ≡ a * 2 ^ 16 = omega arith in
    let f : shl b 8 ≡ b * 2 ^ 8 = omega arith in
    let g : a * 2 ^ 16 + b * 2 ^ 8 ≡ (a * 2 ^ 8 + b) * 2 ^ 8 = omega arith in
    rw (e, f, or_shifted 16 a (b * 2 ^ 8) (omega arith), g, or_shifted 8 (a * 2 ^ 8 + b) c r)

pub join_four :
    (a b c d : ℕ)
    → a < 256
    → b < 256
    → c < 256
    → d < 256
    → bit_or (bit_or (bit_or (shl a 24) (shl b 16)) (shl c 8)) d
      ≡ a * 2 ^ 24 + b * 2 ^ 16 + c * 2 ^ 8 + d
join_four a b c d p q r s =
    let e : shl a 24 ≡ a * 2 ^ 24 = omega arith in
    let f : shl b 16 ≡ b * 2 ^ 16 = omega arith in
    let g : shl c 8 ≡ c * 2 ^ 8 = omega arith in
    let h : a * 2 ^ 24 + b * 2 ^ 16 ≡ (a * 2 ^ 8 + b) * 2 ^ 16 = omega arith in
    let k : (a * 2 ^ 8 + b) * 2 ^ 16 + c * 2 ^ 8 ≡ (a * 2 ^ 16 + b * 2 ^ 8 + c) * 2 ^ 8 =
      omega arith in
    rw (
      e,
      f,
      g,
      or_shifted 24 a (b * 2 ^ 16) (omega arith),
      h,
      or_shifted 16 (a * 2 ^ 8 + b) (c * 2 ^ 8) (omega arith),
      k,
      or_shifted 8 (a * 2 ^ 16 + b * 2 ^ 8 + c) d s,
    )

-- A read behind a front part is a read at the start of what follows it.
get_elem?-append {ℓ} :
    {A : Type ℓ} (front xs : List A) (k : ℕ)
    → get_elem? (front ++ xs) (length front + k) ≡ get_elem? xs k
get_elem?-append [] xs k = rw zero-add
get_elem?-append (x ∷ front) xs k = rw suc-add (get_elem?-append front xs k)

pub past_end-append :
    (front xs : Buffer) (k : ℕ)
    → past_end (front ++ xs) (pos (length front)) k ≡ past_end xs (pos 0) k
unfolding past_end
past_end-append front xs k = ground (arith, length-append front xs)

pos-+ℤ : (a k : ℕ) → pos a +ℤ pos k ≡ pos (a + k)
pos-+ℤ a k = ground arith

pub bits_at-append :
    (front xs : Buffer) (k : ℕ)
    → bits_at (front ++ xs) (pos (length front)) k ≡ bits_at xs (pos 0) k
unfolding bits_at
bits_at-append front xs k =
    cc (pos-+ℤ (length front) k, pos-+ℤ 0 k, get_elem?-append front xs k, zero-add k)

pub byte_at-append : (front xs : Buffer) → get_elem? (front ++ xs) (length front) ≡ get_elem? xs 0
byte_at-append [] xs = refl
byte_at-append (x ∷ front) xs = byte_at-append front xs
