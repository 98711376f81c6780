-- ===== src/Client.antt =====
-- One MQTT client: src/sakura_mqtt_core.c and src/sakura_mqtt_net.c.
pub mod State
pub mod Tracker
pub mod Send
pub mod Topics
pub mod Submit
pub mod Request
pub mod Backup
pub mod Receive
pub mod Callbacks
pub mod Keepalive
pub mod Resend
pub mod Expire
pub mod Tick
pub mod Valid
pub mod Run
