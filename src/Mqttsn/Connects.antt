-- ===== src/Mqttsn/Connects.antt =====
-- From CONNECT to the end of the registrations in lib/mqttsn-client.c, with a gateway that accepts.
use mathlib.Core.Path.{subst}
use tinyhan.Base.{
  ℕ, zero, suc, ◌+◌, ◌≤◌, ◌<◌, ◌≡◌, refl, sym, ◌∙◌, ap, true, false, none, some, List, [], ◌∷◌,
  arith, length, ◌==◌, Bool-cases, inl, inr,
}
use tinyhan.Mqttsn.Types.MsgType
use tinyhan.Mqttsn.Types.{State, Topic, Client}
use tinyhan.Mqttsn.Client.{mqttsn_send, to_state, c_connect}
use tinyhan.Mqttsn.Handler.{
  ping, inbound, receive, connack_handler, topic_at, register_topic, register_next, c_handler,
  set_topic_id,
}
use tinyhan.Mqttsn.Registration.{
  acceptance, IsAsking, register_topic-IsAsking, retry_pending_early, answer_in,
}

-- The gateway accepts what the client asks for at these times, with the topic ids `f`.
unfoldable pub accept_all : Client → (ℕ → ℕ) → ℕ → List ℕ → Client
accept_all m f i [] = m
accept_all m f i (t ∷ ts) = accept_all (c_handler m t (some (acceptance m (f i)))) f (i + 1) ts

-- Each time is before the deadline that the one before it left.
abbrev pub IsPrompt : ℕ → List ℕ → Type 0
IsPrompt d [] = Unit {0}
IsPrompt d (t ∷ ts) = (t < d) × IsPrompt (t + 5) ts

-- Topics whose messages fit the client's buffer.
abbrev pub AreShort : List Topic → Type 0
AreShort [] = Unit {0}
AreShort (t ∷ ts) = (length t.topic ≤ 57) × AreShort ts

-- The client is connected, knows the ids of its topics, and has not overrun its buffer.
abbrev pub IsDone : (ℕ → ℕ) → ℕ → Client → Type 0
IsDone f n m =
    (m.state ≡ State.connected)
    × (m.is_registered ≡ true)
    × (m.overrun ≡ false)
    × ((j : ℕ) → j < n → m.topic_ids j ≡ f j)

topic_at-some :
    (ts : List Topic) (i : ℕ)
    → AreShort ts
    → i < length ts
    → (t : Topic) × (topic_at ts i ≡ some t) × (length t.topic ≤ 57)
unfolding topic_at
topic_at-some [] i a h = absurd (omega arith)
topic_at-some (t ∷ ts) zero (b, a) h = (t, refl, b)
topic_at-some (t ∷ ts) (suc i) (b, a) h = topic_at-some ts i a (omega arith)

topic_at-none : (ts : List Topic) (i : ℕ) → length ts ≤ i → topic_at ts i ≡ none
unfolding topic_at
topic_at-none [] i h = refl
topic_at-none (t ∷ ts) zero h = absurd (omega arith)
topic_at-none (t ∷ ts) (suc i) h = topic_at-none ts i (omega arith)

ping_connecting : (m : Client) (now : ℕ) → m.state ≡ State.connecting → ping m now ≡ m
unfolding ping
ping_connecting m now h = ground arith

-- The registrations that are left when the answer for topic `i` has arrived.
finish :
    (m : Client) (f : ℕ → ℕ) (now i n : ℕ)
    → m.count ≡ n
    → length m.topics ≡ n
    → m.overrun ≡ false
    → ((j : ℕ) → j < n → m.topic_ids j ≡ f j)
    → IsDone f n (register_next (to_state m State.registering) now)
unfolding register_next register_topic
finish m f now i n hc hl ho hf =
    rw (topic_at-none m.topics m.count (omega arith)) (refl, refl, ho, hf)

ask_next :
    (m : Client) (now : ℕ)
    → AreShort m.topics
    → m.count < length m.topics
    → let m1 = register_next (to_state m State.registering) now in
      IsAsking m1 m.count (now + 5)
      × (m1.topics ≡ m.topics)
      × (m1.topic_ids ≡ m.topic_ids)
      × (m1.overrun ≡ m.overrun)
unfolding register_next
ask_next m now a h =
    let (t, e, b) = topic_at-some m.topics m.count a h in
    let (w, et, ei, eo) = register_topic-IsAsking (to_state m State.registering) now t in
    rw e (w, et, ei, eo b)

fill :
    (m : Client) (f : ℕ → ℕ) (i : ℕ)
    → ((j : ℕ) → j < i → m.topic_ids j ≡ f j)
    → (j : ℕ) → j < i + 1
    → (set_topic_id m i (f i)).topic_ids j ≡ f j
fill m f i h j hj = elim (Bool-cases (j == i)) [
  | inl p ↦ let q : i ≡ j = ground arith in rw p (ap f q)
  | inr p ↦ rw p (h j (ground arith))
]

-- All answers from that for topic `i` on.
accept_all-IsDone :
    (ts : List ℕ) (m : Client) (f : ℕ → ℕ) (t i d : ℕ)
    → IsAsking m i d
    → length m.topics ≡ suc (i + length ts)
    → AreShort m.topics
    → m.overrun ≡ false
    → length m.topics ≤ 16
    → ((j : ℕ) → f j < 65536)
    → ((j : ℕ) → j < i → m.topic_ids j ≡ f j)
    → IsPrompt d (t ∷ ts)
    → IsDone f (length m.topics) (accept_all m f i (t ∷ ts))
unfolding accept_all
accept_all-IsDone [] m f t i d v hl ha ho hb hf hi (ht, hs) =
    let e = answer_in m i (f i) t d v (omega arith) (hf i) ht in
    let n : length m.topics ≡ i + 1 = omega arith in
    rw e (
      finish (set_topic_id m i (f i)) f t i (length m.topics) (v.count ∙ sym n) refl ho
        (rw n (fill m f i hi)))
accept_all-IsDone (u ∷ ts) m f t i d v hl ha ho hb hf hi (ht, hs) =
    let e = answer_in m i (f i) t d v (omega arith) (hf i) ht in
    let (w, et, ei, eo) = ask_next (set_topic_id m i (f i)) t ha (omega (arith, v.count)) in
    let m1 = register_next (to_state (set_topic_id m i (f i)) State.registering) t in
    let done =
      accept_all-IsDone ts m1 f u (i + 1) (t + 5) (subst (λ k. IsAsking m1 k (t + 5)) v.count w)
        (rw et (omega arith)) (rw et ha) (eo ∙ ho) (rw et hb) hf
        (λ j hj. ap (λ (g : ℕ → ℕ). g j) ei ∙ fill m f i hi j hj) hs in
    subst (λ z. IsDone f (length m.topics) (accept_all z f (i + 1) (u ∷ ts))) (sym e)
      (subst (λ z. IsDone f (length z) (accept_all m1 f (i + 1) (u ∷ ts))) et done)

-- The gateway's CONNACK with the return code for acceptance.
abbrev pub accept_connack : List ℕ
accept_connack = 3 ∷ (MsgType.connack ∷ (0 ∷ []))

connack_in :
    (m : Client) (now : ℕ)
    → m.state ≡ State.connecting
    → m.message 1 ≡ MsgType.connect
    → m.is_registered ≡ false
    → now < m.t_retry
    → c_handler m now (some accept_connack)
      ≡ register_next (to_state (record m { count = 0 }) State.registering) now
unfolding c_handler inbound receive connack_handler
connack_in m now hs hm hr ht =
    rw (retry_pending_early m now ht, ping_connecting m now hs, hs, hm, hr) refl

c_connect_asks :
    (m : Client) (now : ℕ)
    → m.state ≡ State.disconnected
    → let m1 = c_connect m now in
      (m1.state ≡ State.connecting)
      × (m1.message 1 ≡ MsgType.connect)
      × (m1.t_retry ≡ now + 5)
      × (m1.topics ≡ m.topics)
      × (m1.is_registered ≡ m.is_registered)
      × (m1.overrun ≡ m.overrun)
unfolding c_connect mqttsn_send
c_connect_asks m now hs = rw hs (refl, refl, refl, refl, refl, refl)

connack-IsDone :
    (ts : List ℕ) (m : Client) (f : ℕ → ℕ) (t : ℕ)
    → m.state ≡ State.connecting
    → m.message 1 ≡ MsgType.connect
    → m.is_registered ≡ false
    → m.overrun ≡ false
    → AreShort m.topics
    → t < m.t_retry
    → length m.topics ≤ 16
    → length ts ≡ length m.topics
    → ((j : ℕ) → f j < 65536)
    → IsPrompt (t + 5) ts
    → IsDone f (length m.topics) (accept_all (c_handler m t (some accept_connack)) f 0 ts)
unfolding accept_all
connack-IsDone [] m f t hs hm hr ho ha ht hb hl hf hp = rw (connack_in m t hs hm hr ht) (
    finish (record m { count = 0 }) f t 0 (length m.topics) hl refl ho
      (λ j h. absurd (omega (arith, hl))))
connack-IsDone (u ∷ ts) m f t hs hm hr ho ha ht hb hl hf hp =
    let (w, et, ei, eo) = ask_next (record m { count = 0 }) t ha (omega arith) in
    let m1 = register_next (to_state (record m { count = 0 }) State.registering) t in
    let done =
      accept_all-IsDone ts m1 f u 0 (t + 5) w (rw et (omega arith)) (rw et ha) (eo ∙ ho) (rw et hb)
        hf (λ j hj. absurd (omega arith)) hp in
    subst (λ z. IsDone f (length m.topics) (accept_all z f 0 (u ∷ ts)))
      (sym (connack_in m t hs hm hr ht))
      (subst (λ z. IsDone f (length z) (accept_all m1 f 0 (u ∷ ts))) et done)

-- A disconnected client whose topics are not registered yet sends CONNECT; the gateway accepts it, and
-- then each registration, with any topic ids, each answer within the five seconds of its deadline.
-- With as many answers as topics (at most 16, each of at most 57 bytes) the client is connected, has
-- stored every topic's id, and has not overrun its message buffer, if it had not before.
pub accept_all-c_connect :
    (m : Client) (f : ℕ → ℕ) (now t : ℕ) (ts : List ℕ)
    → m.state ≡ State.disconnected
    → m.is_registered ≡ false
    → m.overrun ≡ false
    → AreShort m.topics
    → length m.topics ≤ 16
    → length ts ≡ length m.topics
    → ((j : ℕ) → f j < 65536)
    → IsPrompt (now + 5) (t ∷ ts)
    → IsDone f
        (length m.topics)
        (accept_all (c_handler (c_connect m now) t (some accept_connack)) f 0 ts)
accept_all-c_connect m f now t ts hs hr ho ha hb hl hf (ht, hp) =
    let (es, em, et, eo, er, eb) = c_connect_asks m now hs in
    subst
      (λ z.
        IsDone f (length z)
          (accept_all (c_handler (c_connect m now) t (some accept_connack)) f 0 ts))
      eo
      (connack-IsDone ts (c_connect m now) f t es em (er ∙ hr) (eb ∙ ho) (rw eo ha) (omega arith)
        (rw eo hb) (rw eo hl) hf hp)
