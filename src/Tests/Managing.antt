-- ===== src/Tests/Managing.antt =====
-- A table of two clients, the second of which is free.
use sakura_mqtt.Common.{◌∙◌, zero, suc}
use sakura_mqtt.Manager.Lookup.Distinct.{open_client-IsDistinct, IsDistinct}
use mathlib.Core.Path.{ap}
use mathlib.Core.Bool.{false≢true}
use mathlib.Core.Option.{some_inj, none-ne-some}
use sakura_mqtt.Manager.Lookup.Opened.{open_client-Opening, Opening}
use sakura_mqtt.Manager.Lookup.Closed.{get_client-close_client}
use sakura_mqtt.Client.Send.{try_send}
use sakura_mqtt.Client.Receive.{messages_loop, handle_messages}
use sakura_mqtt.Manager.Run.{unchanged, close_one, publish_one, open_one, after, Reached-IsTable}
use sakura_mqtt.Tests.Requests.{hello, topic_ab, start-IsValid}
use sakura_mqtt.Manager.Requests.{publish}
use sakura_mqtt.Manager.Tick.{tick_index}
use sakura_mqtt.Tests.Expiring.{waiting_client-IsValid, waiting_client}
use sakura_mqtt.Tests.Sending.{start}
use sakura_mqtt.Common.Words.{negsuc, pos}
use sakura_mqtt.Manager.Connection.Outcome.{connect_client-Ended, Ended}
use sakura_mqtt.Manager.Table.{IsTable}
use sakura_mqtt.Manager.Open.{close_client, open_client}
use sakura_mqtt.Manager.Table.Ticking.{QuietLoop}
use sakura_mqtt.Manager.Connection.{connect_client, AccountInfo}
use sakura_mqtt.Manager.{in_service, Slot, check_index, get_client_by_index, Manager, service_bits}
use sakura_mqtt.Codec.Types.{CString}
use sakura_mqtt.Client.State.{ClientState, not_connected, Client}
use sakura_mqtt.Common.{ℕ, refl, Option, ◌≡◌, arith, [], ◌∷◌, get_elem?, none, some, true, false}

abbrev bare_slot : Client → Slot
bare_slot c = record {
  client = c;
  account = none;
  cb_status = some 6;
  reconnect_flag = 0;
  reconnect_timer = 0;
  reconnect_count = 0;
}

abbrev two_slots : Manager
two_slots = record {
  init_flag = true;
  slots = bare_slot waiting_client ∷ bare_slot (record start { state = ClientState.free }) ∷ [];
  net_buf_size = 10240;
  mem_ok = λ n. true;
  allocs = 0;
  created = λ n. pos 4;
  creates = 0;
  connect_answer = λ n. pos 0;
  connects = 0;
}

two_slots-IsTable : IsTable two_slots
two_slots-IsTable = record {
  valid = (waiting_client-IsValid, (start-IsValid, tt));
  buf_size = omega arith;
}

abbrev id_b : CString
id_b = b'b' ∷ []

open_client-Opening_example : Opening two_slots id_b (open_client two_slots (some id_b))
open_client-Opening_example = open_client-Opening two_slots id_b

get_client-close_client_example :
    get_client_by_index (close_client two_slots (pos 0)).0 (pos 0) ≡ none
get_client-close_client_example = get_client-close_client two_slots (pos 0)

-- A broker that connects a client that is not connected.
abbrev broker_info : AccountInfo
broker_info = record {
  hostname = some (b'h' ∷ []);
  port = 1883;
  username = none;
  password = some (b'p' ∷ []);
}

abbrev one_idle : Manager
one_idle = record two_slots { slots = bare_slot (record start { state = not_connected }) ∷ [] }

one_idle-IsTable : IsTable one_idle
one_idle-IsTable = record { valid = (start-IsValid, tt); buf_size = omega arith }

connect_client-Ended_example :
    Ended
      (pos 4)
      (connect_client start
        (record { hostname = id_b; port = 1883; username = []; password = [] })
        (pos 4)
        (negsuc 0)).0
connect_client-Ended_example =
    connect_client-Ended (pos 4) (negsuc 0) start
      (record { hostname = id_b; port = 1883; username = []; password = [] })

none_left : (o : Option Manager) → QuietLoop (false ∷ []) 5 1 o
none_left none = tt
none_left (some m) = tt

two_slots-Quiet : QuietLoop (service_bits two_slots.slots) 5 0 (some two_slots)
unfolding service_bits get_client_by_index check_index handle_messages try_send messages_loop
two_slots-Quiet = (
  record { short = omega arith; prompt = ground arith },
  none_left (tick_index two_slots 5 (pos 0)).0,
)

abbrev with_b : Manager
with_b = (open_client two_slots (some id_b)).0

abbrev published : Manager
published = (publish with_b (pos 0) (some topic_ab) (some hello) none).0

Reached-IsTable_example : IsTable (close_client published (pos 0)).0
Reached-IsTable_example =
    Reached-IsTable
      (after
        (after (after unchanged (open_one (some id_b)))
          (publish_one (pos 0) (some topic_ab) (some hello) none))
        (close_one (pos 0)))
      two_slots-IsTable

two_apart :
    (i j : ℕ) (s t : Slot)
    → get_elem? two_slots.slots i ≡ some s
    → get_elem? two_slots.slots j ≡ some t
    → in_service s ≡ true
    → in_service t ≡ true
    → s.client.client_id ≡ t.client.client_id
    → i ≡ j
two_apart zero zero s t ga gb fs ft e = refl
two_apart zero (suc zero) s t ga gb fs ft e =
    absurd (false≢true (ap in_service (some_inj.0 gb) ∙ ft))
two_apart zero (suc (suc j)) s t ga gb fs ft e = absurd (none-ne-some _ gb)
two_apart (suc zero) j s t ga gb fs ft e = absurd (false≢true (ap in_service (some_inj.0 ga) ∙ fs))
two_apart (suc (suc i)) j s t ga gb fs ft e = absurd (none-ne-some _ ga)

open_client-IsDistinct_example : IsDistinct (open_client two_slots (some id_b)).0.slots
open_client-IsDistinct_example =
    open_client-IsDistinct two_slots (some id_b) (record { apart = two_apart })
