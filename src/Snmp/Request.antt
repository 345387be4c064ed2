-- ===== src/Snmp/Request.antt =====
-- The request of apps/api/src/lib/snmp-test.ts read back as BER.
use mikrotikbandwidthmonitor.Prelude.{
  ℕ, ◌+◌, ◌*◌, ◌^◌, ◌≤◌, ◌<◌, ◌≡◌, ◌&&◌, Option, none, some, [], ◌∷◌, ◌++◌, ltb, leb, ◌==◌,
  if◌then◌else◌, length, take, drop, length-append, arith,
}
use mikrotikbandwidthmonitor.Prelude.Bytes.{Buffer, Text}
use mikrotikbandwidthmonitor.Snmp.{request_id_buf, tlv, varbind_list, build_snmp_v2c_get_request}

infixl 5 ◌>>=◌
abbrev ◌>>=◌ : {A B : Type 0} → Option A → (A → Option B) → Option B
none >>= f = none
some a >>= f = f a

-- One TLV with its length in the short form: tag, contents and what follows.
unfoldable pub read_tlv : Buffer → Option (ℕ × Buffer × Buffer)
read_tlv (tag ∷ len ∷ rest) =
    if ltb len 128 && leb len (length rest) then some (tag, take len rest, drop len rest) else none
read_tlv _ = none

-- The contents of one TLV of a given tag, and what follows.
unfoldable pub expect : ℕ → Buffer → Option (Buffer × Buffer)
expect tag xs = do
  (t, contents, rest) ← read_tlv xs
  if t == tag then some (contents, rest) else none

unfoldable pub read_u32 : Buffer → Option ℕ
read_u32 (a ∷ b ∷ c ∷ d ∷ []) = some (a * 2 ^ 24 + b * 2 ^ 16 + c * 2 ^ 8 + d)
read_u32 _ = none

-- What a GetRequest of SNMP says.
pub record GetRequest : Type 0 where
  pub version : Buffer
  pub community : Text
  pub request_id : ℕ
  pub error_status : Buffer
  pub error_index : Buffer
  pub oid : Buffer

unfoldable pub read_get_request : Buffer → Option GetRequest
read_get_request message = do
  (inner, end) ← expect 0x30 message
  (version, inner2) ← expect 0x02 inner
  (community, inner3) ← expect 0x04 inner2
  (body, inner4) ← expect 0xa0 inner3
  (id_bytes, body2) ← expect 0x02 body
  id ← read_u32 id_bytes
  (status, body3) ← expect 0x02 body2
  (index, body4) ← expect 0x02 body3
  (list, body5) ← expect 0x30 body4
  (varbind, list2) ← expect 0x30 list
  (oid, value) ← expect 0x06 varbind
  (nothing, value2) ← expect 0x05 value
  some (record {
    version = version;
    community = community;
    request_id = id;
    error_status = status;
    error_index = index;
    oid = oid;
  })

abbrev pdu_body : ℕ → Buffer
pdu_body id =
    request_id_buf id ++ (0x02 ∷ 0x01 ∷ 0x00 ∷ [] ++ (0x02 ∷ 0x01 ∷ 0x00 ∷ [] ++ varbind_list))

-- With a longer community, of at most 220 bytes, the length byte of the message has its high bit
-- set, which BER does not read as a length.
long_community :
    (community : Text) (id : ℕ)
    → 92 < length community
    → length community ≤ 220
    → read_get_request (build_snmp_v2c_get_request community id) ≡ none
unfolding read_get_request build_snmp_v2c_get_request expect read_tlv request_id_buf
long_community community id h k = ground (arith, length-append community (tlv 0xa0 (pdu_body id)))
