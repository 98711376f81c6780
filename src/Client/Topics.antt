-- ===== src/Client/Topics.antt =====
-- The list of subscribed topics of a client, in src/sakura_mqtt_core.c. A node is named by its
-- place in the list.
pub mod Growth
pub mod Changes
pub mod Equal
use mathlib.Core.Option
use sakura_mqtt.Client.State.{subscribing, TopicNode, Client}
use sakura_mqtt.Codec.Types.{SubTopic, CString}
use sakura_mqtt.Common.{
  zero, suc, ◌&&◌, ◌==◌, false, [], ◌+◌, ◌∷◌, ◌-◌, ◌++◌, true, length, if◌then◌else◌, none, take,
  some, Bool, ℕ, Option, List,
}

-- `strcmp(a, b) == 0`.
unfoldable pub str_eq : CString → CString → Bool
str_eq [] [] = true
str_eq (a ∷ as') (b ∷ bs) = a == b && str_eq as' bs
str_eq [] (b ∷ bs) = false
str_eq (a ∷ as') [] = false

-- `check_node_no_repeat`: the first node with the topic. Where there is none the walk ends with
-- `node` at the last node, and that is returned; `none` (NULL) only for an empty list.
unfoldable pub find_from : CString → List TopicNode → (place : ℕ) → Option ℕ
find_from topic [] place = none
find_from topic (n ∷ []) place = some place
find_from topic (n ∷ m ∷ ns) place =
    let rest = find_from topic (m ∷ ns) (place + 1) in
    if str_eq n.topic topic then some place else rest

unfoldable pub check_node_no_repeat : CString → List TopicNode → Option ℕ
unfolding find_from str_eq
check_node_no_repeat topic ns = find_from topic ns 0

-- Qos, state and tracker of the node at a place; its topic stays.
unfoldable pub update_node : List TopicNode → (place qos idx : ℕ) → List TopicNode
update_node [] place qos idx = []
update_node (n ∷ ns) zero qos idx =
    record n { qos = qos; state = subscribing; tracker_idx = idx } ∷ ns
update_node (n ∷ ns) (suc place) qos idx = n ∷ update_node ns place qos idx

-- `mqtt_create_topic_node`, and what its caller sets.
abbrev pub create_topic_node : CString → (qos idx : ℕ) → TopicNode
create_topic_node topic qos idx = record {
  qos = qos;
  topic = topic;
  state = subscribing;
  tracker_idx = idx;
}

-- One entry of the loop of `mqtt_topics_list_append`; false is SAKURA_MQTT_ERR_MEMORY.
abbrev pub append_new : Client → (idx qos : ℕ) → CString → Client × Bool
append_new c idx qos topic =
    if c.mem_ok c.allocs
    then (
      record c {
        topic_list = c.topic_list ++ (create_topic_node topic qos idx ∷ []);
        wait_sub_topic_num = c.wait_sub_topic_num + 1;
        allocs = c.allocs + 1;
      },
      true,
    )
    else (record c { allocs = c.allocs + 1 }, false)

-- With the result of `check_node_no_repeat`.
abbrev pub append_at : Client → (idx qos : ℕ) → CString → Option ℕ → Client × Bool
append_at c idx qos topic (some place) =
    (record c { topic_list = update_node c.topic_list place qos idx }, true)
append_at c idx qos topic none = append_new c idx qos topic

abbrev pub append_entry : Client → (idx qos : ℕ) → Option CString → Client × Bool
append_entry c idx qos none = (c, true)
append_entry c idx qos (some topic) =
    append_at c idx qos topic (check_node_no_repeat topic c.topic_list)

-- `mqtt_topics_list_append`. (`node_arr` has room for 8 entries, and the source writes behind it
-- for a longer list.)
unfoldable pub topics_list_append : Client → (idx : ℕ) → List SubTopic → Client × Bool
unfolding update_node check_node_no_repeat
topics_list_append c idx [] = (c, true)
topics_list_append c idx (t ∷ ts) =
    let (c', more) = append_entry c idx t.qos t.topic in
    let rest = topics_list_append c' idx ts in if more then rest else (c', false)

-- What the inner loop of `mqtt_topics_list_delete` does to one node. When a node is deleted
-- `node` becomes NULL, and the next entry, if there is one, reads through it.
pub data Fate : Type 0 where
  keep delete crash : Fate

abbrev pub deleted : List (Option CString) → Fate
deleted [] = delete
deleted (_ ∷ _) = crash

unfoldable pub node_fate : CString → List (Option CString) → Fate
unfolding str_eq
node_fate topic [] = keep
node_fate topic (none ∷ rest) = crash
node_fate topic (some s ∷ rest) =
    let later = node_fate topic rest in if str_eq topic s then deleted rest else later

abbrev pub with_fate : Fate → TopicNode → Option (List TopicNode) → Option (List TopicNode)
with_fate keep n rest = Option.map (λ ns. n ∷ ns) rest
with_fate delete n rest = rest
with_fate crash n rest = none

unfoldable pub delete_loop : List TopicNode → List (Option CString) → Option (List TopicNode)
unfolding node_fate
delete_loop [] entries = some []
delete_loop (n ∷ ns) entries = with_fate (node_fate n.topic entries) n (delete_loop ns entries)

-- `mqtt_topics_list_delete` for a list whose first entry is not NULL: only `topic_num - 1` entries
-- are looked at. `none` is the crash.
unfoldable pub topics_list_delete : List TopicNode → List (Option CString) → Option (List TopicNode)
unfolding delete_loop
topics_list_delete ns topics = delete_loop ns (take (length topics - 1) topics)
