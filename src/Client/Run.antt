-- ===== src/Client/Run.antt =====
-- A client's life as a sequence of steps: requests of the application, reports of the socket layer,
-- and the operations that the client's tick calls, in any order.
use sakura_mqtt.Client.Tick.{client_tick, noted}
use sakura_mqtt.Client.Valid.Tick.{polled, Quiet, client_tick-IsValid}
use sakura_mqtt.Client.Request.Disconnect.{client_disconnect}
use sakura_mqtt.Client.Callbacks.{net_on_status, net_on_recv, net_on_connect}
use sakura_mqtt.Client.Keepalive.{client_reset, handle_tcp_connected, keepalive}
use sakura_mqtt.Client.Receive.{handle_messages}
use sakura_mqtt.Client.Send.{try_send}
use sakura_mqtt.Client.Valid.Upkeep.{
  net_on_status-IsValid, net_on_recv-IsValid, net_on_connect-IsValid, client_reset-IsValid,
  handle_tcp_connected-IsValid, keepalive-IsValid,
}
use sakura_mqtt.Common.Words.{ℤ}
use sakura_mqtt.Client.Valid.Messages.{handle_messages-IsValid}
use mathlib.Core.Path.{subst}
use sakura_mqtt.Client.Request.{
  client_unsubscribe, client_subscribe, client_publish, client_connect,
}
use sakura_mqtt.Client.Valid.Disconnect.{client_disconnect-IsValid}
use sakura_mqtt.Codec.Types.{SubTopic, Message, CString}
use sakura_mqtt.Client.Valid.Requests.{
  client_unsubscribe-IsValid, Survives, client_subscribe-IsValid, client_publish-IsValid,
  client_connect-IsValid,
}
use sakura_mqtt.Common.{ℕ, some, ◌≡◌, List, Option}
use sakura_mqtt.Client.Valid.{try_send-IsValid, IsValid}
use sakura_mqtt.Client.State.{Callback, Client}

pub data Step (c : Client) : Client → Type 0 where
  connect :
      (username password : Option CString) (cb : Callback)
      → Step c (client_connect c username password cb).0
  disconnect : Step c (client_disconnect c).0
  publish :
      (topic : Option CString) (msg : Option Message) (cb : Callback)
      → Step c (client_publish c topic msg cb).0
  subscribe : (topics : Option (List SubTopic)) → Step c (client_subscribe c topics).0
  unsubscribe :
      (topics : Option (List (Option CString))) (r : Client × ℤ)
      → client_unsubscribe c topics ≡ some r
      → Step c r.0
  tick_time : (tick : ℕ) → Step c (record c { tick = tick })
  send_one : Step c (try_send c).0
  messages : Step c (handle_messages c)
  keep_alive : Step c (keepalive c).0
  connection : Step c (handle_tcp_connected c).0
  tick_client : (now : ℕ) → Quiet (polled (noted c now)) → Step c (client_tick c now).0
  reset : Step c (client_reset c)
  on_connect : Step c (net_on_connect c).0
  on_recv : (bytes : List ℕ) → Step c (net_on_recv c bytes).0
  on_status : (status : ℤ) → Step c (net_on_status c status).0

pub data Reach (c : Client) : Client → Type 0 where
  here : Reach c c
  later : {d e : Client} → Reach c d → Step d e → Reach c e

pub Step-IsValid : {c d : Client} → Step c d → IsValid c → IsValid d
Step-IsValid {c} (connect username password cb) v = client_connect-IsValid c username password cb v
Step-IsValid {c} disconnect v = client_disconnect-IsValid c v
Step-IsValid {c} (publish topic msg cb) v = client_publish-IsValid c topic msg cb v
Step-IsValid {c} (subscribe topics) v = client_subscribe-IsValid c topics v
Step-IsValid {c} (unsubscribe topics r e) v =
    subst (Survives IsValid) e (client_unsubscribe-IsValid c topics v)
Step-IsValid {c} (tick_time tick) v = v
Step-IsValid {c} send_one v = try_send-IsValid c v
Step-IsValid {c} messages v = (handle_messages-IsValid c v).0
Step-IsValid {c} keep_alive v = keepalive-IsValid c v
Step-IsValid {c} connection v = handle_tcp_connected-IsValid c v
Step-IsValid {c} (tick_client now q) v = client_tick-IsValid c now v q
Step-IsValid {c} reset v = client_reset-IsValid c v
Step-IsValid {c} on_connect v = net_on_connect-IsValid c v
Step-IsValid {c} (on_recv bytes) v = net_on_recv-IsValid c bytes v
Step-IsValid {c} (on_status status) v = net_on_status-IsValid c status v

-- Whatever sequence of requests, socket reports, sends, received packets, keepalives, ticks,
-- resets and clock changes a valid client goes through, every client on the way is valid: its send
-- buffer is a queue of frames that fits, its backup buffer fits (and is a queue of copies, if the
-- send buffer is below 64 KB), and it has 24 trackers. A tick counts as a step if the client that
-- mqtt_loop_once sees has a send buffer below 64 KB and no message in it whose time is over.
pub Reach-IsValid : {c d : Client} → Reach c d → IsValid c → IsValid d
Reach-IsValid here v = v
Reach-IsValid (later r s) v = Step-IsValid s (Reach-IsValid r v)
