-- ===== src/Mqttsn/Client.antt =====
-- The sending functions of lib/mqttsn-client.c, and its public calls. `get_seconds()` is an argument
-- `now`, the same through one call; what `cb_send` returns is used by none of its callers.
use tinyhan.Base.{
  ℕ, zero, suc, ◌+◌, ◌-◌, ◌%◌, Bool, true, false, ◌||◌, not, List, [], ◌∷◌, ◌++◌, ltb, ◌==◌, length,
  take, if◌then◌else◌, bit_or,
}
use tinyhan.Base.Int.{ℤ, pos, negsuc}
use tinyhan.Mqttsn.Types.MsgType
use tinyhan.Mqttsn.Types.{
  State, Topic, Effect, sent, Client, is_disconnected, is_connected, write, bytes_from, htons,
  host16, read16, max_client_id, max_packet, t_retry, n_retry, keep_alive, protocol_id, flag_qos_1,
}

abbrev pub emit : Client → Effect → Client
emit m e = record m { log = e ∷ m.log }

-- `do_retry` of `mqttsn_send`: the retries of the message begin.
abbrev pub start_retries : Client → ℕ → Client
start_retries m now = record m { n_retries = n_retry; t_retry = now + t_retry }

-- The header of the message, written in front of it.
abbrev pub put_header : Client → ℕ → ℕ → Client
put_header m msg_type size = record m { message = write m.message 0 (size % 256 ∷ (msg_type ∷ [])) }

-- `mqttsn_send`
unfoldable pub mqttsn_send : Client → ℕ → ℕ → ℕ → Bool → Client
mqttsn_send m now msg_type size do_retry =
    let m1 = put_header m msg_type size in
    let m2 = if do_retry then start_retries m1 now else m1 in
    emit (record m2 { next_ping = now + keep_alive }) (sent (bytes_from m1.message 0 size))

-- `mqttsn_to_state`
abbrev pub to_state : Client → State → Client
to_state m state = record m { state = state; n_retries = 0; t_retry = 0 }

-- A string with its terminator, as `strcpy` writes it.
abbrev pub c_string : List ℕ → List ℕ
c_string s = s ++ (0 ∷ [])

-- Building a message of `size` bytes; the functions that do not check the length of a topic overrun the
-- buffer with it.
abbrev pub put_message : Client → (ℕ → ℕ) → ℕ → Client
put_message m mem size = record m { message = mem; overrun = m.overrun || ltb max_packet size }

-- `mqttsn_register`, whose `strcpy` writes a byte more than it sends
unfoldable pub mqttsn_register : Client → ℕ → ℕ → List ℕ → Client
mqttsn_register m now msg_id topic =
    let m1 = to_state m State.busy in
    let mem = write (write m.message 2 (host16 0 ++ host16 (htons msg_id))) 6 (c_string topic) in
    mqttsn_send (put_message m1 mem (7 + length topic)) now MsgType.register (6 + length topic) true

-- `flags |= MQTTSN_FLAG_DUP`, for a flags field at offset 2
abbrev pub set_dup : Client → Client
set_dup m = record m { message = write m.message 2 (bit_or (m.message 2) 0x80 ∷ []) }

-- `mqttsn_subscribe`
unfoldable pub mqttsn_subscribe : Client → ℕ → ℕ → List ℕ → ℕ → Client
mqttsn_subscribe m now msg_id topic qos =
    let m1 = to_state m State.busy in
    let flags = if qos == 0 then 0 else flag_qos_1 in
    let mem = write (write m.message 2 (flags ∷ host16 (htons msg_id))) 5 (c_string topic) in
    set_dup (
      mqttsn_send (put_message m1 mem (7 + length topic)) now MsgType.subscribe (7 + length topic)
        true)

-- `mqttsn_c_init`, with the memory of the context cleared (its result is always 0)
unfoldable pub c_init : List ℕ → List Topic → Client
c_init client_id topics = record {
  state = State.disconnected;
  count = 0;
  message = λ i. 0;
  overrun = false;
  n_retries = 0;
  t_retry = 0;
  next_ping = 0;
  next_id = 0;
  topics = topics;
  topic_ids = λ i. 0;
  is_registered = false;
  client_id = take max_client_id client_id;
  cb_publish = false;
  cb_puback = false;
  log = [];
}

-- `mqttsn_c_set_publish_callback` and `mqttsn_c_set_puback_callback`
unfoldable pub set_publish_callback : Client → Bool → Client
set_publish_callback m cb = record m { cb_publish = cb }

unfoldable pub set_puback_callback : Client → Bool → Client
set_puback_callback m cb = record m { cb_puback = cb }

-- What `strncpy(dest, s, n)` writes: the string, cut at `n` bytes or filled up with zeros.
unfoldable pub strncpy : List ℕ → ℕ → List ℕ
strncpy s zero = []
strncpy [] (suc n) = 0 ∷ strncpy [] n
strncpy (b ∷ bs) (suc n) = b ∷ strncpy bs n

-- `mqttsn_c_connect`
unfoldable pub c_connect : Client → ℕ → Client
c_connect m now =
    let fields = 0 ∷ (protocol_id ∷ host16 (htons keep_alive)) in
    let mem = write (write m.message 2 fields) 6 (strncpy m.client_id (max_packet - 6)) in
    let m1 = to_state (record m { message = mem }) State.connecting in
    if not (is_disconnected m.state)
    then m
    else mqttsn_send m1 now MsgType.connect (6 + length m.client_id) true

-- `mqttsn_c_disconnect`
unfoldable pub c_disconnect : Client → ℕ → ℕ → Client
c_disconnect m now duration =
    let m1 = to_state m State.disconnecting in
    let m2 = record m1 { message = write m.message 2 (host16 (htons duration)) } in
    if is_disconnected m.state
    then m
    else mqttsn_send m2 now MsgType.disconnect (if duration == 0 then 2 else 4) true

-- `qos > 0`
abbrev pub is_positive : ℤ → Bool
is_positive (pos n) = not (n == 0)
is_positive (negsuc n) = false

-- `qos`, as a condition
abbrev pub is_nonzero : ℤ → Bool
is_nonzero (pos n) = not (n == 0)
is_nonzero (negsuc n) = true

-- The message that `mqttsn_c_publish` builds, with the next message id.
abbrev pub put_publish : Client → ℕ → ℤ → List ℕ → Client
put_publish m topic_index qos payload =
    let id = (m.next_id + 1) % 65536 in
    let flags = if is_nonzero qos then flag_qos_1 else 0 in
    let fields = flags ∷ (host16 (htons (m.topic_ids topic_index)) ++ host16 (htons id)) in
    record m { next_id = id; message = write (write m.message 2 fields) 7 payload }

-- `mqttsn_c_publish`, with its result
unfoldable pub c_publish : Client → ℕ → ℕ → ℤ → List ℕ → Client × ℕ
c_publish m now topic_index qos payload =
    let m1 = if is_positive qos then to_state m State.busy else m in
    let m2 = put_publish m1 topic_index qos payload in
    let m3 = set_dup (mqttsn_send m2 now MsgType.publish (7 + length payload) (is_nonzero qos)) in
    if not (is_connected m.state)
    then (m, 0)
    else if ltb max_packet (7 + length payload)
    then (m, 0)
    else (m3, read16 m3.message 5)

-- `mqttsn_c_get_state`
unfoldable pub c_get_state : Client → State
c_get_state m = m.state
