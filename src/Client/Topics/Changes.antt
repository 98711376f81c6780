-- ===== src/Client/Topics/Changes.antt =====
-- What `mqtt_topics_list_append` does to a list that has a node.
use sakura_mqtt.Client.Topics.Equal.{str_eq_sound, str_eq_refl}
use sakura_mqtt.Client.State.{subscribing, Client, TopicNode}
use sakura_mqtt.Client.Topics.{
  append_entry, str_eq, find_from, update_node, check_node_no_repeat, topics_list_append,
}
use sakura_mqtt.Codec.Types.{SubTopic, CString}
use mathlib.Core.Path.{subst}
use mathlib.Core.Bool.{false≢true}
use sakura_mqtt.Common.{
  refl, inr, All, inl, length-append, ◌∙◌, ◌+◌, arith, length, ◌⊎◌, [], Bool-cases, ap, ◌++◌,
  Option, ◌≢◌, ◌<◌, ◌∷◌, sym, ◌≡◌, ℕ, List, none, some, suc, true, false,
}

-- That one node was changed: the first one with the topic or, if there is none, the last one. It keeps
-- its own topic.
pub record Changed (topic : CString) (qos idx : ℕ) (old new : List TopicNode) : Type 0 where
  pub front : List TopicNode
  pub node : TopicNode
  pub back : List TopicNode
  pub was : old ≡ front ++ (node ∷ back)
  pub earlier : All (λ n. n.topic ≢ topic) front
  pub chosen : (node.topic ≡ topic) ⊎ ((back ≡ []) × (node.topic ≢ topic))
  pub is :
      new
      ≡ front
        ++ (record { qos = qos; topic = node.topic; state = subscribing; tracker_idx = idx } ∷ back)

-- The changes by a list of topics, one after the other; one that is NULL changes nothing.
pub data Changes (idx : ℕ) : List TopicNode → List SubTopic → List TopicNode → Type 0 where
  over : {ns : List TopicNode} → Changes idx ns [] ns
  skip :
      {ns new : List TopicNode} {qos : ℕ} {ts : List SubTopic}
      → Changes idx ns ts new
      → Changes idx ns (record { qos = qos; topic = none } ∷ ts) new
  change :
      {ns mid new : List TopicNode} {qos : ℕ} {topic : CString} {ts : List SubTopic}
      → Changed topic qos idx ns mid
      → Changes idx mid ts new
      → Changes idx ns (record { qos = qos; topic = some topic } ∷ ts) new

str_ne : (s t : CString) → str_eq s t ≡ false → s ≢ t
str_ne s t e f = false≢true (sym e ∙ subst (λ x. str_eq s x ≡ true) f (str_eq_refl s))

module _ (topic : CString) (qos idx : ℕ) where
  -- What the walk finds, with the node there changed.
  abbrev Walked : List TopicNode → (place : ℕ) → Option ℕ → Type 0
  Walked ns place o =
      (k : ℕ) × ((o ≡ some (place + k)) × Changed topic qos idx ns (update_node ns k qos idx))

  here :
      (n : TopicNode) (ns : List TopicNode)
      → (n.topic ≡ topic) ⊎ ((ns ≡ []) × (n.topic ≢ topic))
      → Changed topic qos idx (n ∷ ns) (update_node (n ∷ ns) 0 qos idx)
  unfolding update_node
  here n ns h = record {
    front = [];
    node = n;
    back = ns;
    was = refl;
    earlier = tt;
    chosen = h;
    is = refl;
  }

  there :
      (n : TopicNode) (ns : List TopicNode) (k : ℕ)
      → n.topic ≢ topic
      → Changed topic qos idx ns (update_node ns k qos idx)
      → Changed topic qos idx (n ∷ ns) (update_node (n ∷ ns) (suc k) qos idx)
  unfolding update_node
  there n ns k h c = record {
    front = n ∷ c.front;
    node = c.node;
    back = c.back;
    was = ap (λ t. n ∷ t) c.was;
    earlier = (h, c.earlier);
    chosen = c.chosen;
    is = ap (λ t. n ∷ t) c.is;
  }

  find_from-Walked :
      (n : TopicNode) (ns : List TopicNode) (place : ℕ)
      → Walked (n ∷ ns) place (find_from topic (n ∷ ns) place)
  unfolding find_from
  find_from-Walked n [] place = elim (Bool-cases (str_eq n.topic topic)) [
    | inl e ↦ (0, (ap some (omega arith), here n [] (inl (str_eq_sound n.topic topic e))))
    | inr e ↦ (0, (ap some (omega arith), here n [] (inr (refl, str_ne n.topic topic e))))
  ]
  find_from-Walked n (m ∷ ns) place = elim (Bool-cases (str_eq n.topic topic)) [
    | inl e ↦
        (0, (rw e (ap some (omega arith)), here n (m ∷ ns) (inl (str_eq_sound n.topic topic e))))
    | inr e ↦
        let r = find_from-Walked m ns (place + 1) in
        (
          suc r.0,
          (
            rw e (r.1.0 ∙ ap some (omega arith)),
            there n (m ∷ ns) r.0 (str_ne n.topic topic e) r.1.1,
          ),
        )
  ]

-- A list that has a node.
abbrev pub HasNode : List TopicNode → Type 0
HasNode ns = 0 < length ns

Changed-HasNode :
    (topic : CString) (qos idx : ℕ) (old new : List TopicNode)
    → Changed topic qos idx old new
    → HasNode new
Changed-HasNode topic qos idx old new c = subst HasNode (sym c.is) (
    omega (
      arith,
      length-append c.front (
          record { qos = qos; topic = c.node.topic; state = subscribing; tracker_idx = idx }
          ∷ c.back),
    ))

append_entry-Changed :
    (c : Client) (idx qos : ℕ) (topic : CString)
    → HasNode c.topic_list
    → Changed topic qos idx c.topic_list (append_entry c idx qos (some topic)).0.topic_list
      × ((append_entry c idx qos (some topic)).1 ≡ true)
unfolding check_node_no_repeat
append_entry-Changed c idx qos topic h = by_list c.topic_list refl
  where
    by_list :
        (ns : List TopicNode)
        → c.topic_list ≡ ns
        → Changed topic qos idx c.topic_list (append_entry c idx qos (some topic)).0.topic_list
          × ((append_entry c idx qos (some topic)).1 ≡ true)
    by_list [] e = absurd (omega (arith, subst HasNode e h))
    by_list (n ∷ ns) e =
        let r = find_from-Walked topic qos idx n ns 0 in
        let at : check_node_no_repeat topic c.topic_list ≡ some r.0 =
          ap (check_node_no_repeat topic) e ∙ (r.1.0 ∙ ap some (omega arith)) in
        rw at (subst (λ l. Changed topic qos idx l (update_node l r.0 qos idx)) (sym e) r.1.1, refl)

-- On a list that has a node mqtt_topics_list_append does not fail, and each topic in turn changes
-- exactly one node: the first one with that topic or, if there is none, the last one, which keeps
-- its own topic and gets the QoS and the tracker of the new one and the state SUBSCRIBING. A topic
-- that is NULL changes nothing.
pub topics_list_append-Changes :
    (c : Client) (idx : ℕ) (ts : List SubTopic)
    → HasNode c.topic_list
    → Changes idx c.topic_list ts (topics_list_append c idx ts).0.topic_list
      × ((topics_list_append c idx ts).1 ≡ true)
unfolding topics_list_append
topics_list_append-Changes c idx [] h = (over, refl)
topics_list_append-Changes c idx (t ∷ ts) h =
    by_topic t.topic refl (λ d k. topics_list_append-Changes d idx ts k)
  where
    by_topic :
        (o : Option CString)
        → t.topic ≡ o
        → ((d : Client)
            → HasNode d.topic_list
            → Changes idx d.topic_list ts (topics_list_append d idx ts).0.topic_list
              × ((topics_list_append d idx ts).1 ≡ true))
        → Changes idx c.topic_list (t ∷ ts) (topics_list_append c idx (t ∷ ts)).0.topic_list
          × ((topics_list_append c idx (t ∷ ts)).1 ≡ true)
    by_topic none e next = let r = next c h in rw e (skip r.0, r.1)
    by_topic (some topic) e next =
        let one = append_entry-Changed c idx t.qos topic h in
        let r = next (append_entry c idx t.qos (some topic)).0 (
          Changed-HasNode topic t.qos idx c.topic_list
            (append_entry c idx t.qos (some topic)).0.topic_list one.0) in
        rw e (rw one.1 (change one.0 r.0, r.1))
