-- ===== src/Manager/Table/Resubscribing.antt =====
-- Subscribing to the topics of the list again keeps a client valid.
use sakura_mqtt.Common.Words.{is_negative}
use sakura_mqtt.Client.Valid.Requests.{client_subscribe-IsValid}
use sakura_mqtt.Client.Request.{is_connected}
use sakura_mqtt.Client.Valid.{IsValid}
use sakura_mqtt.Client.State.{TopicNode, Client}
use sakura_mqtt.Manager.Tick.{
  is_to_subscribe, resubscribe_node, subscribe_node, do_subscribe, resubscribe_loop,
}
use sakura_mqtt.Common.{
  length, inr, ◌==◌, not, [], inl, ◌∷◌, ◌&&◌, get_elem?, ◌+◌, Bool-cases, Bool, Option, ℕ, none,
  some, zero, suc, true, false,
}

-- A topic that is subscribed to again changes only the list of topics besides.
subscribe_node-IsValid : (c : Client) (n : TopicNode) → IsValid c → IsValid (subscribe_node c n).0
subscribe_node-IsValid c n v =
    client_subscribe-IsValid c (some (record { qos = n.qos; topic = some n.topic } ∷ [])) v

resubscribe_node-IsValid :
    (c : Client) (place : ℕ) (o : Option TopicNode)
    → IsValid c
    → IsValid (resubscribe_node c place o).0
resubscribe_node-IsValid c place none v = v
resubscribe_node-IsValid c place (some n) v = elim (Bool-cases (is_to_subscribe n.state)) [
  | inl e ↦ elim (Bool-cases (is_negative (subscribe_node c n).1)) [
    | inl k ↦ rw (e, k) (subscribe_node-IsValid c n v)
    | inr k ↦ rw (e, k) (subscribe_node-IsValid c n v)
  ]
  | inr e ↦ rw e v
]

resubscribe_loop-IsValid :
    (nodes place : ℕ) (r : Client × Bool) → IsValid r.0 → IsValid (resubscribe_loop nodes place r)
unfolding resubscribe_loop
resubscribe_loop-IsValid zero place (c, more) v = v
resubscribe_loop-IsValid (suc nodes) place (c, true) v =
    resubscribe_loop-IsValid nodes (place + 1)
      (resubscribe_node c place (get_elem? c.topic_list place))
      (resubscribe_node-IsValid c place (get_elem? c.topic_list place) v)
resubscribe_loop-IsValid (suc nodes) place (c, false) v = v

pub do_subscribe-IsValid : (c : Client) → IsValid c → IsValid (do_subscribe c)
unfolding do_subscribe
do_subscribe-IsValid c v =
    elim (Bool-cases (is_connected c.state && not (c.wait_sub_topic_num == 0))) [
      | inl e ↦ rw e (resubscribe_loop-IsValid (length c.topic_list) 0 (c, true) v)
      | inr e ↦ rw e v
    ]
