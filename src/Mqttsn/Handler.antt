-- ===== src/Mqttsn/Handler.antt =====
-- `mqttsn_c_handler` of lib/mqttsn-client.c and the handlers of the messages it receives. A received
-- message is bytes by offset with its size.
use tinyhan.Base.{
  ℕ, zero, suc, ◌+◌, ◌-◌, ◌%◌, Bool, true, false, ◌&&◌, ◌||◌, not, Option, none, some, List, [],
  ◌∷◌, ltb, leb, ◌==◌, length, drop, has_bit, if◌then◌else◌,
}
use tinyhan.Mqttsn.Types.MsgType
use tinyhan.Mqttsn.Types.{
  State, Topic, sent, published, acknowledged, Client, is_connecting, is_registering, is_connected,
  is_busy, htons, read16, bytes_of, max_client_topics, t_retry, keep_alive, rc_accepted,
  subscribe_bit, bytes_from,
}
use tinyhan.Mqttsn.Client.{emit, to_state, mqttsn_send, mqttsn_register, mqttsn_subscribe}

-- `mqttsn_connack_handler`
unfoldable pub connack_handler : Client → List ℕ → Client
connack_handler m buf =
    let next = if m.is_registered then State.connected else State.registering in
    if ltb (length buf) 3
    then m
    else if not (is_connecting m.state) || not (m.message 1 == MsgType.connect)
    then m
    else if bytes_of buf 2 == rc_accepted
    then to_state (record m { count = 0 }) next
    else to_state m State.disconnected

-- `ctx->topic_ids[msg_id] = topic_id`; there is no bound on the index, as in the code.
abbrev pub set_topic_id : Client → ℕ → ℕ → Client
set_topic_id m msg_id topic_id = record m {
  topic_ids = λ i. if i == msg_id then topic_id else m.topic_ids i;
}

-- The answer to a REGISTER or SUBSCRIBE, with the fields of the two kinds of answer.
abbrev pub enter_topic : Client → Bool → ℕ → ℕ → Client
enter_topic m accepted msg_id topic_id =
    to_state (if accepted then set_topic_id m (htons msg_id) (htons topic_id) else m)
      State.registering

-- `mqttsn_regack_handler`
unfoldable pub regack_handler : Client → List ℕ → Client
regack_handler m buf =
    let b = bytes_of buf in
    if ltb (length buf) 7
    then m
    else if not (is_busy m.state) || not (m.message 1 == MsgType.register)
    then m
    else if not (read16 b 4 == read16 m.message 4)
    then m
    else enter_topic m (b 6 == rc_accepted) (read16 b 4) (read16 b 2)

-- `mqttsn_suback_handler`
unfoldable pub suback_handler : Client → List ℕ → Client
suback_handler m buf =
    let b = bytes_of buf in
    if ltb (length buf) 8
    then m
    else if not (is_busy m.state) || not (m.message 1 == MsgType.subscribe)
    then m
    else if not (read16 b 5 == read16 m.message 3)
    then m
    else enter_topic m (b 7 == rc_accepted) (read16 b 5) (read16 b 3)

-- The flags of an entry of the topic table.
unfoldable pub topic_at : List Topic → ℕ → Option Topic
topic_at [] i = none
topic_at (t ∷ ts) zero = some t
topic_at (t ∷ ts) (suc i) = topic_at ts i

abbrev pub is_subscription : Option Topic → Bool
is_subscription none = false
is_subscription (some t) = has_bit t.flags subscribe_bit

-- The loop of `mqttsn_publish_handler` over the `k` indices from `i` on.
unfoldable pub find_subscription : Client → ℕ → ℕ → ℕ → Option ℕ
find_subscription m topic_id zero i = none
find_subscription m topic_id (suc k) i =
    let rest = find_subscription m topic_id k (i + 1) in
    if m.topic_ids i == topic_id && is_subscription (topic_at m.topics i) then some i else rest

-- The callback of `mqttsn_publish_handler`.
abbrev pub deliver : Client → Option ℕ → List ℕ → Client
deliver m none buf = m
deliver m (some i) buf = if m.cb_publish then emit m (published i (drop 7 buf)) else m

-- `mqttsn_publish_handler`
unfoldable pub publish_handler : Client → List ℕ → Client
publish_handler m buf =
    if ltb (length buf) 7
    then m
    else deliver m (find_subscription m (htons (read16 (bytes_of buf) 3)) max_client_topics 0) buf

-- `mqttsn_puback_handler`
unfoldable pub puback_handler : Client → List ℕ → Client
puback_handler m buf =
    let b = bytes_of buf in
    let m1 = emit m (acknowledged (read16 b 4) (b 6 == rc_accepted)) in
    if ltb (length buf) 7
    then m
    else if not (is_busy m.state)
    then m
    else if not (read16 b 4 == read16 m.message 5)
    then m
    else to_state (if m.cb_puback then m1 else m) State.connected

-- `mqttsn_disconnect_handler`
unfoldable pub disconnect_handler : Client → Client
disconnect_handler m = to_state m State.disconnected

-- The retries of `mqttsn_c_handler`.
unfoldable pub retry_pending : Client → ℕ → Client
retry_pending m now =
    let m1 = record m {
      n_retries = m.n_retries - 1;
      t_retry = now + t_retry;
      next_ping = now + keep_alive;
    } in
    if not (m.t_retry == 0) && leb m.t_retry now
    then if m.n_retries == 0
      then to_state m State.disconnected
      else emit m1 (sent (bytes_from m.message 0 (m.message 0)))
    else m

-- The keep-alive of `mqttsn_c_handler`.
unfoldable pub ping : Client → ℕ → Client
ping m now =
    if is_connected m.state && leb m.next_ping now
    then mqttsn_send m now MsgType.pingreq 2 false
    else m

-- The switch of `mqttsn_c_handler`; REGISTER has no handler.
unfoldable pub receive : Client → List ℕ → Client
receive m buf =
    let type = bytes_of buf 1 in
    if type == MsgType.connack
    then connack_handler m buf
    else if type == MsgType.regack
    then regack_handler m buf
    else if type == MsgType.publish
    then publish_handler m buf
    else if type == MsgType.puback
    then puback_handler m buf
    else if type == MsgType.suback
    then suback_handler m buf
    else if type == MsgType.disconnect
    then disconnect_handler m
    else m

-- The inbound packet of `mqttsn_c_handler`, if there is one.
unfoldable pub inbound : Client → Option (List ℕ) → Client
inbound m none = m
inbound m (some buf) =
    if leb 2 (length buf) && leb (bytes_of buf 0) (length buf) then receive m buf else m

-- The entry of the table that is registered or subscribed next.
unfoldable pub register_topic : Client → ℕ → Option Topic → Client
register_topic m now none = to_state (record m { count = 0; is_registered = true }) State.connected
register_topic m now (some t) =
    let m1 =
      if has_bit t.flags subscribe_bit
      then mqttsn_subscribe m now m.count t.topic (t.flags % 4)
      else mqttsn_register m now m.count t.topic in
    record m1 { count = m.count + 1 }

-- The registrations of `mqttsn_c_handler`.
unfoldable pub register_next : Client → ℕ → Client
register_next m now =
    if is_registering m.state then register_topic m now (topic_at m.topics m.count) else m

-- `mqttsn_c_handler`
unfoldable pub c_handler : Client → ℕ → Option (List ℕ) → Client
c_handler m now buf = register_next (inbound (ping (retry_pending m now) now) buf) now
