-- ===== src/Mqttsn/Publish.antt =====
-- Publishing with an acknowledgement, and the frame of SUBSCRIBE, in lib/mqttsn-client.c.
use tinyhan.Base.{
  ap, ℕ, zero, suc, ◌+◌, ◌-◌, ◌/◌, ◌%◌, ◌≤◌, ◌<◌, ◌≡◌, ◌≢◌, refl, sym, ◌∙◌, Bool, true, ◌&&◌, some,
  List, [], ◌∷◌, arith, length, get_or, length-append, ◌==◌, leb, ltb, if◌then◌else◌,
}
use tinyhan.Base.Int.{pos}
use tinyhan.Mqttsn.Types.MsgType
use tinyhan.Mqttsn.Types.{
  State, Effect, sent, acknowledged, Client, read16, bytes_from, write, htons, host16, flag_qos_1,
}
use tinyhan.Mqttsn.Client.{
  c_string, put_publish, put_header, mqttsn_send, mqttsn_subscribe, c_publish,
}
use tinyhan.Mqttsn.Handler.{inbound, receive, puback_handler, register_next, c_handler}
use tinyhan.Mqttsn.Registration.{retry_pending_early, ping_busy, overrun_kept}

-- A PUBACK with the message id `id` as it stands in memory, for any topic id.
abbrev pub puback_bytes : ℕ → ℕ → ℕ → ℕ → List ℕ
puback_bytes hi lo id rc = 7 ∷ (MsgType.puback ∷ (hi ∷ (lo ∷ (id % 256 ∷ (id / 256 ∷ (rc ∷ []))))))

-- `if (ctx->cb_puback)`, on the list of calls.
abbrev pub reported : Bool → ℕ → Bool → List Effect → List Effect
reported cb id ok log = if cb then acknowledged id ok ∷ log else log

-- The frame of a publish.
abbrev pub publish_frame : Client → ℕ → ℕ → List ℕ → List ℕ
publish_frame m topic_index q payload =
    bytes_from
      (put_header (put_publish m topic_index (pos q) payload) MsgType.publish
        (7 + length payload)).message
      0 (7 + length payload)

c_publish_sends :
    (m : Client) (now topic_index q : ℕ) (payload : List ℕ)
    → m.state ≡ State.connected
    → q ≢ 0
    → length payload ≤ 57
    → let (m1, id) = c_publish m now topic_index (pos q) payload in
      (m1.state ≡ State.busy)
      × (m1.t_retry ≡ now + 5)
      × (m1.cb_puback ≡ m.cb_puback)
      × (m1.log ≡ sent (publish_frame m topic_index q payload) ∷ m.log)
      × (read16 m1.message 5 ≡ id)
      × (id ≡ htons ((m.next_id + 1) % 65536))
unfolding c_publish mqttsn_send
c_publish_sends m now topic_index q payload hs hq hl =
    (ground arith, ground arith, ground arith, ground arith, ground arith, ground arith)

puback_in :
    (m : Client) (t hi lo id rc : ℕ)
    → m.state ≡ State.busy
    → t < m.t_retry
    → id < 65536
    → let m1 = c_handler m t (some (puback_bytes hi lo id rc)) in
      (read16 m.message 5 ≡ id
        → (m1.state ≡ State.connected)
          × (m1.t_retry ≡ 0)
          × (m1.log ≡ reported m.cb_puback id (rc == 0) m.log))
      × (read16 m.message 5 ≢ id → m1 ≡ m)
unfolding c_handler inbound receive puback_handler register_next
puback_in m t hi lo id rc hs ht hd =
    rw (retry_pending_early m t ht, ping_busy m t hs)
      (λ e. (ground arith, ground arith, ground arith), λ e. ground arith)

-- A connected client that publishes with QoS above 0 (and at most 57 bytes) sends one frame and is busy.
-- Before the deadline, a PUBACK with another message id changes nothing; the one with the returned id
-- ends the wait: the client is connected, no retry is due, and the application hears of the result.
pub c_handler-c_publish :
    (m : Client) (now topic_index q : ℕ) (payload : List ℕ) (t hi lo other rc : ℕ)
    → m.state ≡ State.connected
    → q ≢ 0
    → length payload ≤ 57
    → t < now + 5
    → other < 65536
    → let (m1, id) = c_publish m now topic_index (pos q) payload in
      let frame = sent (publish_frame m topic_index q payload) in
      let m2 = c_handler m1 t (some (puback_bytes hi lo id rc)) in
      (m1.state ≡ State.busy)
      × (m1.log ≡ frame ∷ m.log)
      × (m2.state ≡ State.connected)
      × (m2.t_retry ≡ 0)
      × (m2.log ≡ reported m.cb_puback id (rc == 0) (frame ∷ m.log))
      × (other ≢ id → c_handler m1 t (some (puback_bytes hi lo other rc)) ≡ m1)
c_handler-c_publish m now topic_index q payload t hi lo other rc hs hq hl ht ho =
    let (m1, id) = c_publish m now topic_index (pos q) payload in
    let (es, er, ec, el, ei, eh) = c_publish_sends m now topic_index q payload hs hq hl in
    let bound : id < 65536 = rw eh (omega arith) in
    let (acked, skip) = puback_in m1 t hi lo id rc es (omega (arith, er)) bound in
    let (s, r, l) = acked ei in
    let (skip, ignored) = puback_in m1 t hi lo other rc es (omega (arith, er)) ho in
    (
      es,
      el,
      s,
      r,
      l ∙ (λ i. reported (ec i) id (rc == 0) (el i)),
      λ h. ignored (λ e. h (sym e ∙ ei)),
    )

get_or-bytes_from :
    (mem : ℕ → ℕ) (off n i : ℕ) → i < n → get_or (bytes_from mem off n) i 0 ≡ mem (off + i)
get_or-bytes_from mem off zero i h = absurd (omega arith)
get_or-bytes_from mem off (suc n) zero h = ap mem (omega arith)
get_or-bytes_from mem off (suc n) (suc i) h =
    get_or-bytes_from mem (off + 1) n i (omega arith) ∙ ap mem (omega arith)

length-bytes_from : (mem : ℕ → ℕ) (off n : ℕ) → length (bytes_from mem off n) ≡ n
length-bytes_from mem off zero = refl
length-bytes_from mem off (suc n) = ap suc (length-bytes_from mem (off + 1) n)

get_or-c_string : (s : List ℕ) → get_or (c_string s) (length s) 0 ≡ 0
get_or-c_string [] = refl
get_or-c_string (b ∷ s) = get_or-c_string s

write_before :
    (mem : ℕ → ℕ) (off : ℕ) (bs : List ℕ) (i : ℕ) → off + length bs ≤ i → write mem off bs i ≡ mem i
write_before mem off bs i h = ground arith

write_at :
    (mem : ℕ → ℕ) (off : ℕ) (bs : List ℕ) (j : ℕ)
    → j < length bs
    → write mem off bs (off + j) ≡ get_or bs j 0
write_at mem off bs j h =
    let e : off + j - off ≡ j = omega arith in
    let t : (leb off (off + j) && ltb (off + j) (off + length bs)) ≡ true = ground arith in
    rw (t, e) refl

length-c_string : (s : List ℕ) → length (c_string s) ≡ length s + 1
length-c_string s = length-append s (0 ∷ [])

-- The bytes behind the topic of a SUBSCRIBE message.
behind_topic :
    (mem : ℕ → ℕ) (fields : List ℕ) (topic : List ℕ) (size : ℕ)
    → length fields ≡ 3
    → let mem' =
        write
          (write (write mem 2 fields) 5 (c_string topic))
          0
          (size % 256 ∷ (MsgType.subscribe ∷ [])) in
      (mem' (5 + length topic) ≡ 0) × (mem' (6 + length topic) ≡ mem (6 + length topic))
behind_topic mem fields topic size hf =
    let m1 = write mem 2 fields in
    let m2 = write m1 5 (c_string topic) in
    let e = length-c_string topic in
    let head = size % 256 ∷ (MsgType.subscribe ∷ []) in
    (
      write_before m2 0 head (5 + length topic) (omega arith)
          ∙ write_at m1 5 (c_string topic) (length topic) (omega (arith, e))
          ∙ get_or-c_string topic,
      write_before m2 0 head (6 + length topic) (omega arith)
          ∙ write_before m1 5 (c_string topic) (6 + length topic) (omega (arith, e))
          ∙ write_before mem 2 fields (6 + length topic) (omega (arith, hf)),
    )

-- The frame of SUBSCRIBE: the buffer under its fields, its topic and its header.
abbrev pub subscribe_frame : Client → ℕ → List ℕ → ℕ → List ℕ
subscribe_frame m msg_id topic qos =
    let fields = (if qos == 0 then 0 else flag_qos_1) ∷ host16 (htons msg_id) in
    let size = 7 + length topic in
    bytes_from
      (write (write (write m.message 2 fields) 5 (c_string topic)) 0
        (size % 256 ∷ (MsgType.subscribe ∷ [])))
      0 size

-- A SUBSCRIBE frame for a topic of at most 57 bytes, which fits the message buffer, is two bytes longer
-- than its header, flags, message id and topic need: behind the topic stand its terminator and one byte
-- that an earlier message left in the buffer.
pub log-mqttsn_subscribe :
    (m : Client) (now msg_id : ℕ) (topic : List ℕ) (qos : ℕ)
    → length topic ≤ 57
    → let frame = subscribe_frame m msg_id topic qos in
      ((mqttsn_subscribe m now msg_id topic qos).log ≡ sent frame ∷ m.log)
      × ((mqttsn_subscribe m now msg_id topic qos).overrun ≡ m.overrun)
      × (length frame ≡ 5 + length topic + 2)
      × (get_or frame (5 + length topic) 0 ≡ 0)
      × (get_or frame (6 + length topic) 0 ≡ m.message (6 + length topic))
unfolding mqttsn_subscribe mqttsn_send
log-mqttsn_subscribe m now msg_id topic qos hl =
    let fields = (if qos == 0 then 0 else flag_qos_1) ∷ host16 (htons msg_id) in
    let size = 7 + length topic in
    let mem =
      write (write (write m.message 2 fields) 5 (c_string topic)) 0
        (size % 256 ∷ (MsgType.subscribe ∷ [])) in
    let (p, q) = behind_topic m.message fields topic size refl in
    (
      refl,
      overrun_kept m.overrun (length topic) hl,
      length-bytes_from mem 0 size ∙ omega arith,
      get_or-bytes_from mem 0 size (5 + length topic) (omega arith)
          ∙ ap mem {x = 0 + (5 + length topic)} {y = 5 + length topic} (omega arith)
          ∙ p,
      get_or-bytes_from mem 0 size (6 + length topic) (omega arith)
          ∙ ap mem {x = 0 + (6 + length topic)} {y = 6 + length topic} (omega arith)
          ∙ q,
    )
