-- ===== src/Codec/Types.antt =====
-- The data that the packet encoders read: inc/sakura_mqtt.h, inc/sakura_mqtt_client.h.
use sakura_mqtt.Common.{ℕ, ◌+◌, ◌*◌, ◌%◌, Option, List}

-- A C string: its bytes, without the terminating zero. `NULL` is `none`.
abbrev pub CString : Type 0
CString = List ℕ

-- `MQTT_MSG_TYPE`.
abbrev pub type_connect : ℕ
type_connect = 1

abbrev pub type_connack : ℕ
type_connack = 2

abbrev pub type_publish : ℕ
type_publish = 3

abbrev pub type_puback : ℕ
type_puback = 4

abbrev pub type_pubrec : ℕ
type_pubrec = 5

abbrev pub type_pubrel : ℕ
type_pubrel = 6

abbrev pub type_pubcomp : ℕ
type_pubcomp = 7

abbrev pub type_subscribe : ℕ
type_subscribe = 8

abbrev pub type_suback : ℕ
type_suback = 9

abbrev pub type_unsubscribe : ℕ
type_unsubscribe = 10

abbrev pub type_unsuback : ℕ
type_unsuback = 11

abbrev pub type_pingreq : ℕ
type_pingreq = 12

abbrev pub type_pingresp : ℕ
type_pingresp = 13

abbrev pub type_disconnect : ℕ
type_disconnect = 14

-- `mqtt_will_t`. `QoS` is a C enumeration, which holds any number.
pub record Will : Type 0 where
  pub qos : ℕ
  pub retained : ℕ
  pub topic : Option CString
  pub payload : Option (List ℕ)
  pub payloadlen : ℕ

-- `mqtt_message_t`, less the fields `dup` and `id`, which no function reads.
pub record Message : Type 0 where
  pub qos : ℕ
  pub retained : ℕ
  pub payload : Option (List ℕ)
  pub payloadlen : ℕ

-- `mqtt_msg_ident_t`.
pub record Ident : Type 0 where
  pub dup : ℕ
  pub message_id : ℕ

-- `sakura_mqtt_topic_t`.
pub record SubTopic : Type 0 where
  pub qos : ℕ
  pub topic : Option CString

-- `mqtt_connect_data_t`.
pub record ConnectData : Type 0 where
  pub version : ℕ
  pub client_id : Option CString
  pub keepalive_interval : ℕ
  pub cleansession : ℕ
  pub will_flag : ℕ
  pub will : Will
  pub username : Option CString
  pub password : Option CString

-- The byte of `mqtt_header_t`, from its bit fields.
abbrev pub header_byte : (type dup qos retain : ℕ) → ℕ
header_byte type dup qos retain = retain % 2 + qos % 4 * 2 + dup % 2 * 8 + type % 16 * 16

-- The byte of `mqtt_connect_flags_t`, from its bit fields.
abbrev pub connect_flags_byte : (cleansession will will_qos will_retain password username : ℕ) → ℕ
connect_flags_byte cleansession will will_qos will_retain password username =
    cleansession % 2 * 2
    + will % 2 * 4
    + will_qos % 4 * 8
    + will_retain % 2 * 32
    + password % 2 * 64
    + username % 2 * 128
