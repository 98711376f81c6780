-- ===== src/Codec.antt =====
-- MQTT control packets, written and measured: src/sakura_mqtt_pack.c.
pub mod Types
pub mod Write
pub mod Measure
pub mod Encode
pub mod Sizes
pub mod Publish
pub mod Bounded
