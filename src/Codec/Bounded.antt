-- ===== src/Codec/Bounded.antt =====
-- A length that an encoder returns is at most the buffer's.
use sakura_mqtt.Codec.Types.{Message, SubTopic, CString, ConnectData, Ident}
use sakura_mqtt.Common.Words.{slt, is_positive}
use sakura_mqtt.Codec.Encode.{
  encode_publish, encode_ack, encode_unsubscribe, encode_subscribe, Encoded, encode_zero,
  encode_connect, encode_disconnect, encode_pingreq,
}
use sakura_mqtt.Common.{false, arith, [], true, List, none, ◌≡◌, some, Option, ℕ}

-- A positive result `ret` on a buffer of `buflen` bytes (both int32_t).
abbrev pub IsBounded : (buflen ret : ℕ) → Type 0
IsBounded buflen ret = is_positive ret ≡ true → slt buflen ret ≡ false

module _ (buflen : ℕ) (ident : Ident) where
  pub encode_publish-IsBounded :
      (topic : CString) (msg : Message)
      → IsBounded buflen (encode_publish (some []) buflen ident (some topic) (some msg)).0
  unfolding encode_publish
  encode_publish-IsBounded topic msg = ground arith

  pub encode_subscribe-IsBounded :
      (topics : List SubTopic)
      → IsBounded buflen (encode_subscribe (some []) buflen ident (some topics)).0
  unfolding encode_subscribe
  encode_subscribe-IsBounded topics = ground arith

  pub encode_unsubscribe-IsBounded :
      (topics : List (Option CString))
      → IsBounded buflen (encode_unsubscribe (some []) buflen ident (some topics)).0
  unfolding encode_unsubscribe
  encode_unsubscribe-IsBounded topics = ground arith

  pub encode_ack-IsBounded :
      (type : ℕ) → IsBounded buflen (encode_ack (some []) buflen type ident).0
  unfolding encode_ack
  encode_ack-IsBounded type = ground arith

pub encode_disconnect-IsBounded :
    (buflen : ℕ) → IsBounded buflen (encode_disconnect (some []) buflen).0
unfolding encode_disconnect encode_zero
encode_disconnect-IsBounded buflen = ground arith

pub encode_pingreq-IsBounded : (buflen : ℕ) → IsBounded buflen (encode_pingreq (some []) buflen).0
unfolding encode_pingreq encode_zero
encode_pingreq-IsBounded buflen = ground arith

abbrev pub ret_of : Option Encoded → ℕ
ret_of none = 0
ret_of (some e) = e.0

pub encode_connect-IsBounded :
    (buflen : ℕ) (d : ConnectData)
    → IsBounded buflen (ret_of (encode_connect (some []) buflen (some d)))
unfolding encode_connect
encode_connect-IsBounded buflen d = ground arith
