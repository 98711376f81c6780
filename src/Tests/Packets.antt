-- ===== src/Tests/Packets.antt =====
-- Packets: the encoders, the header and the parser.
use sakura_mqtt.Parse.RemainingLength.{read_remaining_length-remaining_len_bytes}
use sakura_mqtt.Parse.Packets.{read_message-packet, parse_publish-publish_body_bytes}
use sakura_mqtt.Common.Words.{minus, negsuc}
use sakura_mqtt.Codec.Write.{
  write_data, remaining_len_loop, write_string, write_short, write_remaining_len, write_char,
  remaining_len_bytes,
}
use sakura_mqtt.Codec.Sizes.{packet_len-remaining_len_bytes, written, fixed_header}
use sakura_mqtt.Codec.Measure.{calculate_publish_len, calculate_packet_len}
use sakura_mqtt.Common.{◌⊎◌, refl, arith, ◌≤◌, length, none, ◌+◌, [], ◌++◌, ◌∷◌, ◌≡◌, ℕ, some, List}
use sakura_mqtt.Frame.{parse_header-assembly_header, assembly_header, parse_header}
use sakura_mqtt.Codec.Encode.{publish_body, encode_zero, encode_pingreq, encode_publish}
use sakura_mqtt.Parse.{message, read, read_remaining_length, parse_publish, read_message}
use sakura_mqtt.Codec.Types.{Message, Ident}
use sakura_mqtt.Codec.Publish.{
  encode_publish-written, encode_publish-publish_bytes, publish_bytes, publish_body_bytes,
}

abbrev topic_ab : List ℕ
topic_ab = b'a' ∷ b'b' ∷ []

abbrev ident_7 : Ident
ident_7 = record { dup = 0; message_id = 7 }

abbrev hello : Message
hello = record { qos = 1; retained = 0; payload = some (b'h' ∷ b'i' ∷ []); payloadlen = 2 }

encode_hello :
    encode_publish (some []) 100 ident_7 (some topic_ab) (some hello)
    ≡ (10, some (0x32 ∷ 8 ∷ 0 ∷ 2 ∷ b'a' ∷ b'b' ∷ 0 ∷ 7 ∷ b'h' ∷ b'i' ∷ []))
unfolding encode_publish publish_body write_char write_short write_string write_data
    write_remaining_len remaining_len_loop calculate_publish_len calculate_packet_len
encode_hello = refl

encode_ping : encode_pingreq (some []) 2 ≡ (2, some (0xc0 ∷ 0 ∷ []))
unfolding encode_pingreq encode_zero write_char write_remaining_len remaining_len_loop
encode_ping = refl

encode_publish-publish_bytes_example :
    encode_publish (some []) 100 ident_7 (some topic_ab) (some hello)
    ≡ (10, some (publish_bytes ident_7 topic_ab hello))
unfolding publish_body_bytes calculate_packet_len
encode_publish-publish_bytes_example =
    encode_publish-publish_bytes 100 ident_7 topic_ab hello (omega arith) (omega arith) refl
      (omega arith)

encode_publish-written_example :
    (written (encode_publish (some []) 100 ident_7 (some topic_ab) (some hello)) ≤ 100)
    × (((encode_publish (some []) 100 ident_7 (some topic_ab) (some hello)).0 ≡ minus 1)
        ⊎ ((encode_publish (some []) 100 ident_7 (some topic_ab) (some hello)).0
            ≡ written (encode_publish (some []) 100 ident_7 (some topic_ab) (some hello)) + 0))
unfolding publish_body_bytes
encode_publish-written_example =
    encode_publish-written 100 ident_7 topic_ab hello (omega arith) (omega arith) refl (omega arith)

packet_len-remaining_len_bytes_example :
    calculate_packet_len 300 ≡ 1 + length (remaining_len_bytes 300) + 300 + 0
packet_len-remaining_len_bytes_example = packet_len-remaining_len_bytes 300 (omega arith)

read_remaining_length_example :
    read_remaining_length (remaining_len_bytes 300 ++ (9 ∷ []))
    ≡ read (length (remaining_len_bytes 300)) 300
read_remaining_length_example = read_remaining_length-remaining_len_bytes 300 (9 ∷ []) (omega arith)

read_message-packet_example :
    read_message ((fixed_header 0x30 2 ++ (1 ∷ 2 ∷ [])) ++ (0xd0 ∷ []))
    ≡ message (length (fixed_header 0x30 2 ++ (1 ∷ 2 ∷ []))) (length (remaining_len_bytes 2))
read_message-packet_example = read_message-packet 0x30 (1 ∷ 2 ∷ []) (0xd0 ∷ []) (omega arith)

parse_publish_example :
    parse_publish 1 (publish_body_bytes ident_7 topic_ab hello)
    ≡ some (record { topic = topic_ab; message_id = 7; payload = b'h' ∷ b'i' ∷ [] })
parse_publish_example =
    parse_publish-publish_body_bytes ident_7 topic_ab hello (omega arith) (omega arith)
      (omega arith)

-- A QoS 0 message with an empty payload, as another client may send it, is refused.
parse_empty_payload : parse_publish 0 (0 ∷ 2 ∷ b'a' ∷ b'b' ∷ []) ≡ none
unfolding parse_publish
parse_empty_payload = refl

parse_header_example :
    parse_header (assembly_header (negsuc 0) 12 2 ++ (0xc0 ∷ 0 ∷ []))
    ≡ record { index = negsuc 0; msg_type = 12; len = 2 }
parse_header_example =
    parse_header-assembly_header (negsuc 0) 12 2 (0xc0 ∷ 0 ∷ []) refl (omega arith) (omega arith)
