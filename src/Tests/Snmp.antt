-- ===== src/Tests/Snmp.antt =====
-- The SNMP test of apps/api/src/lib/snmp-test.ts on small datagrams.
use mikrotikbandwidthmonitor.Prelude.{length, ◌≡◌, ◌<◌, refl, none, some, [], ◌∷◌, ◌++◌}
use mikrotikbandwidthmonitor.Prelude.Bytes.{Buffer, codes}
use mikrotikbandwidthmonitor.Snmp.{
  parse_snmp_response, ros_version, find_octet_string, after_oid, starts_with, oid_bytes,
  skip_spaces, take_word, starts_with_ignoring_case,
}
use mikrotikbandwidthmonitor.Snmp.Session.{
  v2c, v3, failed_answer, is_datagram, not_supported, test_snmp_connection, timeout, message,
  on_events, answer_of, first_event_decides,
}
use mikrotikbandwidthmonitor.Prelude.Utf8.{to_string}
use mikrotikbandwidthmonitor.Snmp.Response.{parse_snmp_response_sound}

run : Unit {0}
unfolding parse_snmp_response after_oid starts_with find_octet_string ros_version
    starts_with_ignoring_case skip_spaces take_word to_string
run = tt

abbrev answer : Buffer
answer = 0x30 ∷ 9 ∷ (oid_bytes ++ (0x04 ∷ 5 ∷ (codes "Hello" ++ (1 ∷ []))))

answered : parse_snmp_response answer ≡ some (codes "Hello")
unfolding run
answered = refl

behind : after_oid answer ≡ some (0x04 ∷ 5 ∷ (codes "Hello" ++ (1 ∷ [])))
unfolding run
behind = refl

ros_version_tests :
    (ros_version (codes "RouterOS  7.1 x") ≡ some (codes "7.1"))
    × (ros_version (codes "a routeros 6") ≡ some (codes "6"))
    × (ros_version (codes "RouterOSx") ≡ none)
unfolding run
ros_version_tests = (refl, refl, refl)

parse_snmp_response_sound_example :
    (front middle bytes back : Buffer) × (answer
      ≡ front ++ (oid_bytes ++ (middle ++ (0x04 ∷ length bytes ∷ (bytes ++ back)))))
    × (0 < length bytes)
    × (codes "Hello" ≡ to_string bytes)
parse_snmp_response_sound_example = parse_snmp_response_sound answer answered

first_event_decides_example :
    ((on_events
        (message answer ∷ timeout ∷ [])
        (test_snmp_connection (codes "public") v2c 7)).resolved
      ≡ some (answer_of (message answer)))
    × ((answer_of (message answer)).success ≡ is_datagram (message answer))
    × ((on_events
          (message answer ∷ timeout ∷ [])
          (test_snmp_connection (codes "public") v3 7)).resolved
        ≡ some (failed_answer not_supported))
    × ((test_snmp_connection (codes "public") v3 7).sent ≡ [])
first_event_decides_example = first_event_decides (codes "public") 7 (message answer) (timeout ∷ [])
