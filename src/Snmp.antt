-- ===== src/Snmp.antt =====
-- apps/api/src/lib/snmp-test.ts: the SNMP connection test. `Buffer.from([x])` keeps `x & 0xff`.
-- A position in a buffer is the part of the buffer from there on.
pub mod Request
pub mod Response
pub mod Session
use Prim.Native.String.{String}
use mikrotikbandwidthmonitor.Prelude.{
  ℕ, zero, suc, ◌+◌, ◌-◌, ◌/◌, ◌%◌, ◌^◌, Bool, true, false, ◌&&◌, ◌||◌, Option, none, some, List,
  [], ◌∷◌, ◌++◌, ltb, leb, ◌==◌, if◌then◌else◌, length, take, drop,
}
use mikrotikbandwidthmonitor.Prelude.Utf8.{to_string}
use mikrotikbandwidthmonitor.Prelude.Bits.{bit_and}
use mikrotikbandwidthmonitor.Prelude.Bytes.{Buffer, Text, codes, text_eq}

abbrev pub byte : ℕ → ℕ
byte x = x % 256

abbrev pub sysdescr_oid : Buffer
sysdescr_oid = 0x06 ∷ 0x08 ∷ 0x2b ∷ 0x06 ∷ 0x01 ∷ 0x02 ∷ 0x01 ∷ 0x01 ∷ 0x01 ∷ 0x00 ∷ []

unfoldable pub request_id_buf : ℕ → Buffer
request_id_buf request_id =
    0x02
    ∷ 0x04
    ∷ bit_and (request_id / 2 ^ 24) 0xff
    ∷ bit_and (request_id / 2 ^ 16) 0xff
    ∷ bit_and (request_id / 2 ^ 8) 0xff
    ∷ bit_and request_id 0xff
    ∷ []

-- `Buffer.concat([Buffer.from([tag, contents.length]), contents])`
abbrev pub tlv : ℕ → Buffer → Buffer
tlv tag contents = tag ∷ byte (length contents) ∷ contents

abbrev pub varbind_list : Buffer
varbind_list = tlv 0x30 (tlv 0x30 (sysdescr_oid ++ (0x05 ∷ 0x00 ∷ [])))

unfoldable pub build_snmp_v2c_get_request : Text → ℕ → Buffer
build_snmp_v2c_get_request community request_id =
    let error_status = 0x02 ∷ 0x01 ∷ 0x00 ∷ [] in
    let error_index = 0x02 ∷ 0x01 ∷ 0x00 ∷ [] in
    let pdu_body = request_id_buf request_id ++ (error_status ++ (error_index ++ varbind_list)) in
    let pdu = tlv 0xa0 pdu_body in
    let version = 0x02 ∷ 0x01 ∷ 0x01 ∷ [] in
    let community_tlv = tlv 0x04 community in
    let inner_len = length version + length community_tlv + length pdu in
    0x30 ∷ byte inner_len ∷ (version ++ (community_tlv ++ pdu))

-- The bytes of the OID that `parseSnmpResponse` looks for.
abbrev pub oid_bytes : Buffer
oid_bytes = 0x2b ∷ 0x06 ∷ 0x01 ∷ 0x02 ∷ 0x01 ∷ 0x01 ∷ 0x01 ∷ 0x00 ∷ []

unfoldable pub starts_with : Buffer → Buffer → Bool
starts_with [] xs = true
starts_with (p ∷ ps) [] = false
starts_with (p ∷ ps) (x ∷ xs) = p == x && starts_with ps xs

-- What follows the first occurrence, `data` from `data.indexOf(…) + 8` on.
unfoldable pub after_oid : Buffer → Option Buffer
unfolding starts_with
after_oid [] = none
after_oid (x ∷ xs) = if starts_with oid_bytes (x ∷ xs) then some (drop 8 (x ∷ xs)) else after_oid xs

-- The loop, while at least three bytes are left.
unfoldable pub find_octet_string : Buffer → Option Text
find_octet_string (tag ∷ len ∷ x ∷ rest) =
    if tag == 0x04 && (ltb 0 len && leb len (length (x ∷ rest)))
    then some (to_string (take len (x ∷ rest)))
    else find_octet_string (len ∷ x ∷ rest)
find_octet_string _ = none

unfoldable pub parse_snmp_response : Buffer → Option Text
parse_snmp_response msg = elim (after_oid msg) [
  | none ↦ none
  | some behind ↦ find_octet_string behind
]

abbrev pub is_space : ℕ → Bool
is_space c = c == 32 || (leb 9 c && leb c 13)

abbrev lower : ℕ → ℕ
lower c = if leb b'A' c && leb c b'Z' then c + 32 else c

unfoldable pub starts_with_ignoring_case : Text → Text → Bool
starts_with_ignoring_case [] xs = true
starts_with_ignoring_case (p ∷ ps) [] = false
starts_with_ignoring_case (p ∷ ps) (x ∷ xs) = lower p == lower x && starts_with_ignoring_case ps xs

unfoldable pub skip_spaces : Text → Text
skip_spaces [] = []
skip_spaces (c ∷ s) = if is_space c then skip_spaces s else c ∷ s

unfoldable pub take_word : Text → Text
take_word [] = []
take_word (c ∷ s) = if is_space c then [] else c ∷ take_word s

-- The group `(\S+)` behind `\s+`.
abbrev version_behind : Text → Option Text
version_behind [] = none
version_behind (c ∷ s) =
    let word = take_word (skip_spaces s) in
    if is_space c then (elim word [ [] ↦ none | d ∷ w ↦ some (d ∷ w) ]) else none

-- `s.match(/RouterOS\s+(\S+)/i)?.[1]`, over ASCII
unfoldable pub ros_version : Text → Option Text
unfolding starts_with_ignoring_case skip_spaces take_word
ros_version [] = none
ros_version (c ∷ s) =
    let here = version_behind (drop 8 (c ∷ s)) in
    let later = ros_version s in
    if starts_with_ignoring_case (codes "RouterOS") (c ∷ s)
    then (elim here [ none ↦ later | some v ↦ some v ])
    else later
