-- ===== src/Tests/Wire.antt =====
-- The wire format of apps/api/src/lib/routeros-api.ts on small packets.
use mikrotikbandwidthmonitor.Prelude.{
  false, ◌≡◌, refl, none, some, List, [], ◌∷◌, ◌++◌, arith, if◌then◌else◌,
}
use mikrotikbandwidthmonitor.Prelude.Int.{pos}
use mikrotikbandwidthmonitor.Prelude.Utf8.{to_string, to_string-ascii, replacement}
use mikrotikbandwidthmonitor.Prelude.Bytes.{Buffer, Text, codes, text_eq}
use mikrotikbandwidthmonitor.RouterOs.Wire.{
  encode_length, encode_sentence, decode_length, decode_words, Decoded, past_end, bits_at,
  encode_word, decode_loop,
}
use mikrotikbandwidthmonitor.RouterOs.Length.{read_length}
use mikrotikbandwidthmonitor.RouterOs.Frames.{frame, Reads, cut, stop}
use mikrotikbandwidthmonitor.RouterOs.Reading.{
  decode_words-Reads, decode_words_total, below_f0-IsTame,
}
use mikrotikbandwidthmonitor.RouterOs.RoundTrip.{
  IsSentence, stream, Reads-stream, decode_words-stream,
}
use mikrotikbandwidthmonitor.RouterOs.Chunks.{decode_words-append, open_words_lost}
use mikrotikbandwidthmonitor.RouterOs.Runaway.{decode_loop_diverges, minus_five}
use mikrotikbandwidthmonitor.RouterOs.Attributes.{
  is_one_of, inherited, lookup, words_to_attrs, attribute_word, lookup-words_to_attrs,
}
use mikrotikbandwidthmonitor.RouterOs.Uptime.{
  parse_uptime, match_unit, nonzero, seconds, text_of, Part, parse_uptime-text_of,
}

run : Unit {0}
unfolding to_string decode_words decode_length encode_sentence encode_length read_length past_end
    bits_at encode_word frame text_eq lookup words_to_attrs parse_uptime match_unit
run = tt

abbrev two_words : List Text
two_words = codes "!re" ∷ codes "=a=1" ∷ []

abbrev packet : Buffer
packet = 3 ∷ b'!' ∷ b'r' ∷ b'e' ∷ 4 ∷ b'=' ∷ b'a' ∷ b'=' ∷ b'1' ∷ 0 ∷ []

wire_tests :
    (encode_sentence two_words ≡ packet)
    × (decode_words packet ≡ some (record { sentences = two_words ∷ []; remaining = [] }))
    × (decode_words (packet ++ (5 ∷ 1 ∷ []))
        ≡ some (record { sentences = two_words ∷ []; remaining = 5 ∷ 1 ∷ [] }))
    × (encode_length 300 ≡ 0x81 ∷ 0x2c ∷ [])
    × (decode_length (0x81 ∷ 0x2c ∷ []) (pos 0) ≡ some (pos 300, 2))
    × (parse_uptime (some (codes "1w2d3h4m5s")) ≡ some 788645)
unfolding run
wire_tests = (refl, refl, refl, refl, refl, refl)

abbrev behind_re : Buffer
behind_re = 4 ∷ b'=' ∷ b'a' ∷ b'=' ∷ b'1' ∷ 0 ∷ []

nothing_left : frame [] ≡ cut
unfolding run
nothing_left = refl

two_words-IsSentence : IsSentence two_words
two_words-IsSentence = record {
  filled = refl;
  words = (
    record {
      filled = omega arith;
      short = omega arith;
      bytes = omega arith;
      utf8 = to_string-ascii _ (omega arith);
    },
    (
      record {
        filled = omega arith;
        short = omega arith;
        bytes = omega arith;
        utf8 = to_string-ascii _ (omega arith);
      },
      tt,
    ),
  );
}

packet-Reads :
    (left : Buffer) → frame left ≡ cut → Reads (packet ++ left) [] (two_words ∷ []) [] left
unfolding encode_sentence encode_word encode_length
packet-Reads left f = Reads-stream (two_words ∷ []) (two_words-IsSentence, tt) (stop f)

decode_words-Reads_example :
    decode_words packet ≡ some (record { sentences = two_words ∷ []; remaining = [] })
decode_words-Reads_example = decode_words-Reads packet (omega arith) (packet-Reads [] nothing_left)

decode_words_total_example : (d : Decoded) × (decode_words packet ≡ some d)
decode_words_total_example =
    decode_words_total packet (omega arith) (below_f0-IsTame packet (omega arith))

part_decoded : decode_words (5 ∷ 1 ∷ []) ≡ some (record { sentences = []; remaining = 5 ∷ 1 ∷ [] })
unfolding run
part_decoded = refl

decode_words-stream_example :
    decode_words (stream (two_words ∷ two_words ∷ []) ++ (5 ∷ 1 ∷ []))
    ≡ some (record { sentences = two_words ∷ two_words ∷ []; remaining = 5 ∷ 1 ∷ [] })
decode_words-stream_example =
    decode_words-stream (two_words ∷ two_words ∷ []) (5 ∷ 1 ∷ [])
      (record { sentences = []; remaining = 5 ∷ 1 ∷ [] })
      (two_words-IsSentence, (two_words-IsSentence, tt)) (omega arith)
      (below_f0-IsTame (5 ∷ 1 ∷ []) (omega arith)) part_decoded

-- The second piece starts behind the length of a word.
abbrev second_piece : Buffer
second_piece = b'!' ∷ b'r' ∷ b'e' ∷ behind_re

cut_frame : frame (3 ∷ []) ≡ cut
unfolding run
cut_frame = refl

packet_decoded : decode_words packet ≡ some (record { sentences = two_words ∷ []; remaining = [] })
unfolding run
packet_decoded = refl

decode_words-append_example :
    (decode_words (packet ++ (3 ∷ []))
      ≡ some (record { sentences = two_words ∷ []; remaining = 3 ∷ [] }))
    × (decode_words ((packet ++ (3 ∷ [])) ++ second_piece)
        ≡ some (record { sentences = two_words ∷ two_words ∷ []; remaining = [] }))
decode_words-append_example =
    decode_words-append (packet ++ (3 ∷ [])) second_piece
      (record { sentences = two_words ∷ []; remaining = [] }) (omega arith) (omega arith)
      (packet-Reads (3 ∷ []) cut_frame) (omega arith) (below_f0-IsTame packet (omega arith))
      packet_decoded

open_words_lost_example :
    (decode_words (encode_sentence (codes "!re" ∷ [] ++ (codes "=a=1" ∷ [])))
      ≡ some (record { sentences = two_words ∷ []; remaining = [] }))
    × (decode_words (3 ∷ b'!' ∷ b'r' ∷ b'e' ∷ [])
        ≡ some (record { sentences = []; remaining = [] }))
    × (decode_words behind_re
        ≡ some (record { sentences = (codes "=a=1" ∷ []) ∷ []; remaining = [] }))
unfolding encode_word encode_length
open_words_lost_example =
    open_words_lost (codes "!re" ∷ []) (codes "=a=1" ∷ []) (two_words-IsSentence.words.0, tt)
      (two_words-IsSentence.words.1.0, tt)

decode_loop_diverges_example : decode_loop 1000 (minus_five (1 ∷ [])) (pos 0) [] [] ≡ none
decode_loop_diverges_example = decode_loop_diverges 1000 (1 ∷ []) [] [] (omega arith, tt)

own_key : is_one_of inherited (codes "ab") ≡ false
unfolding run is_one_of
own_key = refl

-- The prototype is not set.
no_proto : words_to_attrs (codes "=__proto__=x" ∷ []) ≡ []
unfolding run
no_proto = refl

-- Bytes that are no UTF-8 come as U+FFFD.
replaced :
    decode_words (1 ∷ 0xff ∷ 0 ∷ [])
    ≡ some (record { sentences = (replacement ∷ []) ∷ []; remaining = [] })
unfolding run
replaced = refl

dash :
    to_string (b'a' ∷ 0xe2 ∷ 0x80 ∷ 0x94 ∷ 0xe2 ∷ 0x80 ∷ b'b' ∷ [])
    ≡ b'a' ∷ 0xe2 ∷ 0x80 ∷ 0x94 ∷ (replacement ++ (b'b' ∷ []))
unfolding run
dash = refl

lookup-words_to_attrs_example :
    lookup
      (codes "ab")
      (words_to_attrs (codes "!re" ∷ [] ++ (attribute_word (codes "ab") (codes "x=y") ∷ [])))
    ≡ (if text_eq (codes "ab") (codes "ab")
        then some (codes "x=y")
        else lookup (codes "ab") (words_to_attrs (codes "!re" ∷ [])))
lookup-words_to_attrs_example =
    lookup-words_to_attrs (codes "!re" ∷ []) (codes "ab") (codes "x=y") (codes "ab") (omega arith)
      (λ h. omega (arith, h), (λ h. omega (arith, h), tt)) own_key

abbrev three_hours : Part
three_hours = record { digits = codes "3"; unit = b'h' }

abbrev forty_seconds : Part
forty_seconds = record { digits = codes "40"; unit = b's' }

parse_uptime-text_of_example :
    parse_uptime (some (text_of (three_hours ∷ forty_seconds ∷ [])))
    ≡ nonzero (seconds (three_hours ∷ forty_seconds ∷ []))
parse_uptime-text_of_example = parse_uptime-text_of three_hours (forty_seconds ∷ []) (
  record { filled = omega arith; numeric = (refl, tt); letter = refl },
  (record { filled = omega arith; numeric = (refl, (refl, tt)); letter = refl }, tt),
)
