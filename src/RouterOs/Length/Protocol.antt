-- ===== src/RouterOs/Length/Protocol.antt =====
-- The length prefixes of the protocol, and `decodeLength` of apps/api/src/lib/routeros-api.ts.
use mikrotikbandwidthmonitor.Prelude.{
  ℕ, suc, ◌+◌, ◌*◌, ◌-◌, Option, none, some, [], ◌∷◌, ltb, leb, if◌then◌else◌, length, take,
}
use mikrotikbandwidthmonitor.Prelude.Int.{ℤ, int32}
use mikrotikbandwidthmonitor.Prelude.Bytes.{Buffer}

-- How many bytes follow the first one.
abbrev pub width : ℕ → ℕ
width a =
    if ltb a 0x80
    then 0
    else if ltb a 0xc0
    then 1
    else if ltb a 0xe0
    then 2
    else if ltb a 0xf0
    then 3
    else 4

-- What the first byte adds to the value.
abbrev pub lead : ℕ → ℕ
lead a =
    if ltb a 0x80
    then a
    else if ltb a 0xc0
    then a - 0x80
    else if ltb a 0xe0
    then a - 0xc0
    else if ltb a 0xf0
    then a - 0xe0
    else 0

-- The most significant byte comes first.
abbrev pub big_endian : ℕ → Buffer → ℕ
big_endian n [] = n
big_endian n (b ∷ bs) = big_endian (n * 256 + b) bs

-- The value of the prefix at the head of a buffer, a number that is not negative, and the bytes that it
-- takes.
unfoldable pub protocol_length : Buffer → Option (ℕ × ℕ)
protocol_length [] = none
protocol_length (a ∷ xs) =
    if leb (width a) (length xs)
    then some (big_endian (lead a) (take (width a) xs), suc (width a))
    else none

-- The value as a signed number of 32 bits
abbrev pub as_signed : Option (ℕ × ℕ) → Option (ℤ × ℕ)
as_signed none = none
as_signed (some (n, k)) = some (int32 n, k)
