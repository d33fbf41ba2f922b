-- ===== src/Mqttsn/Registration.antt =====
-- The registration of all topics by the client of lib/mqttsn-client.c, with a gateway that accepts.
use tinyhan.Base.{
  ap, Bool, ◌≤◌, ◌||◌, ltb, length, ℕ, ◌+◌, ◌*◌, ◌/◌, ◌%◌, ◌<◌, ◌≡◌, refl, ◌∙◌, true, some, List,
  [], ◌∷◌, arith, ◌==◌, has_bit, if◌then◌else◌, Bool-cases, inl, inr, ◌⊎◌,
}
use tinyhan.Mqttsn.Types.MsgType
use tinyhan.Mqttsn.Types.{State, Topic, Client, htons, read16, subscribe_bit}
use tinyhan.Mqttsn.Client.{mqttsn_send, mqttsn_register, mqttsn_subscribe, to_state}
use tinyhan.Mqttsn.Handler.{
  retry_pending, ping, inbound, receive, regack_handler, suback_handler, register_topic,
  register_next, c_handler, set_topic_id,
}

-- The gateway's acceptance of the client's last message, with a topic id.
abbrev pub acceptance : Client → ℕ → List ℕ
acceptance m id =
    let b = m.message in
    let hi = id / 256 in
    let lo = id % 256 in
    if b 1 == MsgType.subscribe
    then 8 ∷ (MsgType.suback ∷ (0 ∷ (hi ∷ (lo ∷ (b 3 ∷ (b 4 ∷ (0 ∷ [])))))))
    else 7 ∷ (MsgType.regack ∷ (hi ∷ (lo ∷ (b 4 ∷ (b 5 ∷ (0 ∷ []))))))

-- The message id of the registration that the client waits for.
abbrev pub WaitsFor : Client → ℕ → Type 0
WaitsFor m i =
    (m.message 1 ≡ MsgType.subscribe) × (read16 m.message 3 ≡ htons i)
    ⊎ (m.message 1 ≡ MsgType.register) × (read16 m.message 4 ≡ htons i)

-- The client waits for the answer for topic `i`, until a deadline.
pub record IsAsking (m : Client) (i deadline : ℕ) : Type 0 where
  pub busy : m.state ≡ State.busy
  pub count : m.count ≡ i + 1
  pub timer : m.t_retry ≡ deadline
  pub waits : WaitsFor m i

htons-htons : (a : ℕ) → a < 65536 → htons (htons a) ≡ a
htons-htons a h = omega arith

host16_back : (a : ℕ) → htons a % 256 + 256 * (htons a / 256 % 256) ≡ htons a
host16_back a = omega arith

-- A topic of at most 57 bytes fits.
pub overrun_kept : (b : Bool) (n : ℕ) → n ≤ 57 → (b || ltb 64 (7 + n)) ≡ b
overrun_kept b n h = ground arith

pub register_topic-IsAsking :
    (m : Client) (now : ℕ) (t : Topic)
    → IsAsking (register_topic m now (some t)) m.count (now + 5)
      × ((register_topic m now (some t)).topics ≡ m.topics)
      × ((register_topic m now (some t)).topic_ids ≡ m.topic_ids)
      × (length t.topic ≤ 57 → (register_topic m now (some t)).overrun ≡ m.overrun)
unfolding register_topic mqttsn_register mqttsn_subscribe mqttsn_send
register_topic-IsAsking m now t = elim (Bool-cases (has_bit t.flags subscribe_bit)) [
  | inl p ↦ rw p (
    record { busy = refl; count = refl; timer = refl; waits = inl (refl, host16_back m.count) },
    refl,
    refl,
    overrun_kept m.overrun (length t.topic),
  )
  | inr p ↦ rw p (
    record { busy = refl; count = refl; timer = refl; waits = inr (refl, host16_back m.count) },
    refl,
    refl,
    overrun_kept m.overrun (length t.topic),
  )
]

pub retry_pending_early : (m : Client) (now : ℕ) → now < m.t_retry → retry_pending m now ≡ m
unfolding retry_pending
retry_pending_early m now h = ground arith

pub ping_busy : (m : Client) (now : ℕ) → m.state ≡ State.busy → ping m now ≡ m
unfolding ping
ping_busy m now h = ground arith

pub same : (x : ℕ) → (x == x) ≡ true
same x = ground arith

inbound-acceptance :
    (m : Client) (i id : ℕ)
    → m.state ≡ State.busy
    → WaitsFor m i
    → i < 65536
    → id < 65536
    → inbound m (some (acceptance m id)) ≡ to_state (set_topic_id m i id) State.registering
unfolding inbound receive suback_handler regack_handler
inbound-acceptance m i id hs (inl (p, q)) hi hd =
    let e : htons (read16 m.message 3) ≡ i = ap htons q ∙ htons-htons i hi in
    let f : htons (id / 256 + 256 * (id % 256)) ≡ id = omega arith in
    rw (p, hs, same (read16 m.message 3))
      (λ k. to_state (set_topic_id m (e k) (f k)) State.registering)
inbound-acceptance m i id hs (inr (p, q)) hi hd =
    let e : htons (read16 m.message 4) ≡ i = ap htons q ∙ htons-htons i hi in
    let f : htons (id / 256 + 256 * (id % 256)) ≡ id = omega arith in
    rw (p, hs, same (read16 m.message 4))
      (λ k. to_state (set_topic_id m (e k) (f k)) State.registering)

pub answer_in :
    (m : Client) (i id now deadline : ℕ)
    → IsAsking m i deadline
    → i < 65536
    → id < 65536
    → now < deadline
    → c_handler m now (some (acceptance m id))
      ≡ register_next (to_state (set_topic_id m i id) State.registering) now
unfolding c_handler
answer_in m i id now deadline v hi hid hn =
    rw
      (
        retry_pending_early m now (omega (arith, v.timer)),
        ping_busy m now v.busy,
        inbound-acceptance m i id v.busy v.waits hi hid,
      )
      refl
