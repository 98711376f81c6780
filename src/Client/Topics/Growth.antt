-- ===== src/Client/Topics/Growth.antt =====
-- What `mqtt_topics_list_delete` does with one topic.
use sakura_mqtt.Common.{[], refl, some, ◌≡◌, ◌∷◌, Option, List}
use sakura_mqtt.Codec.Types.{CString}
use sakura_mqtt.Client.State.{TopicNode}
use sakura_mqtt.Client.Topics.{node_fate, topics_list_delete, delete_loop}

delete_loop-nil : (ns : List TopicNode) → delete_loop ns [] ≡ some ns
unfolding delete_loop node_fate
delete_loop-nil [] = refl
delete_loop-nil (n ∷ ns) = rw (delete_loop-nil ns) refl

-- Of any list of subscribed topics mqtt_topics_list_delete removes nothing when it is given one
-- topic.
pub topics_list_delete_one :
    (ns : List TopicNode) (topic : Option CString) → topics_list_delete ns (topic ∷ []) ≡ some ns
unfolding topics_list_delete
topics_list_delete_one ns topic = delete_loop-nil ns
