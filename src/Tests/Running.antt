-- ===== src/Tests/Running.antt =====
-- A run of a client: it publishes, receives bytes, handles them, and keeps its connection.
use sakura_mqtt.Client.Backup.Stored.{Stored-nil}
use sakura_mqtt.Client.Valid.Messages.{handle_messages-IsValid}
use sakura_mqtt.Tests.Requests.{hello, topic_ab, start-IsValid}
use sakura_mqtt.Client.Valid.Upkeep.{net_on_recv_fits}
use sakura_mqtt.Client.Valid.Rounds.{messages_loop-enough}
use sakura_mqtt.Frame.Queue.{queue_bytes}
use sakura_mqtt.Tests.Sending.{start}
use sakura_mqtt.Client.Keepalive.{keepalive}
use sakura_mqtt.Client.Callbacks.{net_on_recv}
use sakura_mqtt.Client.Request.{client_publish}
use sakura_mqtt.Client.Valid.{IsValid}
use sakura_mqtt.Client.Receive.{handle_messages, messages_loop}
use sakura_mqtt.Client.Run.{
  keep_alive, messages, on_recv, publish, here, later, Reach-IsValid, Reach,
}
use sakura_mqtt.Common.{refl, arith, some, ◌≤◌, ◌∷◌, ◌≡◌, [], ℕ, length, List}
use sakura_mqtt.Client.State.{Client}

abbrev puback_bytes : List ℕ
puback_bytes = 0x40 ∷ 2 ∷ 0 ∷ 1 ∷ []

abbrev published : Client
published = (client_publish start (some topic_ab) (some hello) (some 7)).0

abbrev answered : Client
answered = (net_on_recv published puback_bytes).0

abbrev run : Reach start (keepalive (handle_messages answered)).0
run =
    later
      (later
        (later (later here (publish (some topic_ab) (some hello) (some 7))) (on_recv puback_bytes))
        messages)
      keep_alive

Reach-IsValid_example : IsValid (keepalive (handle_messages answered)).0
Reach-IsValid_example = Reach-IsValid run start-IsValid

-- A client with a PUBACK and the start of another packet in its receive buffer.
abbrev receiving : Client
receiving = record start { recv = 0x40 ∷ 2 ∷ 0 ∷ 1 ∷ 0x40 ∷ [] }

receiving-IsValid : IsValid receiving
receiving-IsValid = record {
  frames = [];
  holds = record { bytes = unfold queue_bytes in refl; frames = tt };
  send_fits = omega arith;
  send_bound = omega arith;
  stored = λ short. Stored-nil;
  backup_fits = omega arith;
  backup_bound = omega arith;
  tracker_count = refl;
}

handle_messages-IsValid_example :
    IsValid (handle_messages receiving)
    × (length (handle_messages receiving).recv ≤ length receiving.recv)
handle_messages-IsValid_example = handle_messages-IsValid receiving receiving-IsValid

messages_loop-enough_example :
    messages_loop 5 receiving.recv receiving ≡ messages_loop 9 receiving.recv receiving
messages_loop-enough_example =
    messages_loop-enough 5 9 receiving.recv receiving (omega arith) (omega arith)

net_on_recv_fits_example : length (net_on_recv receiving puback_bytes).0.recv ≤ receiving.recv_size
net_on_recv_fits_example = net_on_recv_fits receiving puback_bytes (omega arith) (omega arith)
