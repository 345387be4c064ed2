-- ===== src/Snmp/Response.antt =====
-- What `parseSnmpResponse` of apps/api/src/lib/snmp-test.ts finds.
use mikrotikbandwidthmonitor.Prelude.{
  ℕ, ◌<◌, ◌≡◌, refl, sym, ap, ◌∙◌, true, ◌&&◌, some, [], ◌∷◌, ◌++◌, ltb, leb, ◌==◌, length, take,
  drop, length-take, take-append-drop, Bool-cases, inl, inr, Option-cases, some_inj, arith,
}
use mikrotikbandwidthmonitor.Prelude.Bytes.{Buffer, Text}
use mikrotikbandwidthmonitor.Prelude.Utf8.{to_string}
use mikrotikbandwidthmonitor.Snmp.{
  find_octet_string, after_oid, oid_bytes, starts_with, parse_snmp_response,
}

-- A whole OCTET STRING in short form, whose bytes are those of `text`, stands somewhere in `xs`.
pub record Holds (xs : Buffer) (text : Text) : Type 0 where
  pub front : Buffer
  pub bytes : Buffer
  pub back : Buffer
  pub split : xs ≡ front ++ (0x04 ∷ length bytes ∷ (bytes ++ back))
  pub filled : 0 < length bytes
  pub decoded : to_string bytes ≡ text

split_at :
    (tag len : ℕ) (text xs : Buffer)
    → tag ≡ 0x04
    → length text ≡ len
    → take len xs ≡ text
    → tag ∷ len ∷ xs ≡ 0x04 ∷ length text ∷ (text ++ drop len xs)
split_at tag len text xs t n e =
    rw (t, n, ← e) (ap (λ l. 0x04 ∷ len ∷ l) (sym (take-append-drop len xs)))

find_octet_string-Holds :
    (xs : Buffer) {text : Text} → find_octet_string xs ≡ some text → Holds xs text
unfolding find_octet_string
find_octet_string-Holds [] e = cc
find_octet_string-Holds (tag ∷ []) e = cc
find_octet_string-Holds (tag ∷ len ∷ []) e = cc
find_octet_string-Holds (tag ∷ len ∷ x ∷ rest) {text} e =
    elim (Bool-cases (tag == 0x04 && (ltb 0 len && leb len (length (x ∷ rest))))) [
      | inl found ↦
          let bytes = take len (x ∷ rest) in
          let t : to_string bytes ≡ text = ground arith in
          let n : length bytes ≡ len = ground (arith, length-take len (x ∷ rest)) in
          record {
            front = [];
            bytes = bytes;
            back = drop len (x ∷ rest);
            split = split_at tag len bytes (x ∷ rest) (ground arith) n refl;
            filled = ground arith;
            decoded = t;
          }
      | inr missed ↦
          let h = find_octet_string-Holds (len ∷ x ∷ rest) (ground arith) in
          record {
            front = tag ∷ h.front;
            bytes = h.bytes;
            back = h.back;
            split = ap (λ l. tag ∷ l) h.split;
            filled = h.filled;
            decoded = h.decoded;
          }
    ]

starts_with-eq : (ps xs : Buffer) → starts_with ps xs ≡ true → xs ≡ ps ++ drop (length ps) xs
unfolding starts_with
starts_with-eq [] xs e = refl
starts_with-eq (p ∷ ps) [] e = cc
starts_with-eq (p ∷ ps) (x ∷ xs) e = ground (arith, starts_with-eq ps xs)

after_oid-split :
    (xs : Buffer) {behind : Buffer}
    → after_oid xs ≡ some behind
    → (front : Buffer) × (xs ≡ front ++ (oid_bytes ++ behind))
unfolding after_oid
after_oid-split [] e = cc
after_oid-split (x ∷ xs) {behind} e = elim (Bool-cases (starts_with oid_bytes (x ∷ xs))) [
  | inl here ↦
      let d : drop 8 (x ∷ xs) ≡ behind = some_inj (rw (here, after_oid) at e) in
      ([], starts_with-eq oid_bytes (x ∷ xs) here ∙ ap (λ l. oid_bytes ++ l) d)
  | inr later ↦
      let (front, split) = after_oid-split xs (rw (later, after_oid) at e) in
      (x ∷ front, ap (λ l. x ∷ l) split)
]

-- A text that `parseSnmpResponse` returns is the UTF-8 decoding of bytes that stand in the
-- datagram, behind the bytes of the OID, as a whole OCTET STRING that is not empty: its tag, its
-- length in one byte, and its bytes, all of them inside the datagram.
pub parse_snmp_response_sound :
    (msg : Buffer) {text : Text}
    → parse_snmp_response msg ≡ some text
    → (front middle bytes back : Buffer) × (msg
        ≡ front ++ (oid_bytes ++ (middle ++ (0x04 ∷ length bytes ∷ (bytes ++ back)))))
      × (0 < length bytes)
      × (text ≡ to_string bytes)
unfolding parse_snmp_response
parse_snmp_response_sound msg {text} e = elim (Option-cases (after_oid msg)) [
  | inl absent ↦ cc (rw (absent, parse_snmp_response) at e)
  | inr (behind, found) ↦
      let (front, split) = after_oid-split msg found in
      let h = find_octet_string-Holds behind (rw (found, parse_snmp_response) at e) in
      (
        front,
        h.front,
        h.bytes,
        h.back,
        split ∙ ap (λ l. front ++ (oid_bytes ++ l)) h.split,
        h.filled,
        sym h.decoded,
      )
]
