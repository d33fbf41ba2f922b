-- ===== src/Endpoint.antt =====
-- examples/mqttsn-client/main.c: a node whose application is the client of lib/mqttsn-client.c, with its
-- messages as packets of lib/tinymac.c.
pub mod Setup
pub mod Loop
use tinyhan.Base.{
  ℕ, ◌+◌, ◌*◌, ◌/◌, ◌%◌, true, false, Option, none, some, List, [], ◌∷◌, ◌++◌, ◌==◌, if◌then◌else◌,
}
use tinyhan.Base.Int.{ℤ}
use tinyhan.Base.Bytes.{hex_digit}
use tinyhan.Posix.{System, Action, pure, ◌>>=◌, ◌>>◌, call, epoll_create, epoll_add, watch_ticks}
use tinyhan.Mac.Types.{Params, Mac}
use tinyhan.Mac.Receive.{recv_cb}
use tinyhan.Mac.Upper.{DataPacket, handed}
use tinyhan.Mac.Api.{init, register_recv_cb, tick_handler, send}
use tinyhan.Mqttsn.Types.{Topic, Client, Effect, sent}
use tinyhan.Mqttsn.Client.{c_init, c_connect, c_disconnect}
use tinyhan.Mqttsn.Handler.{c_handler}

-- `tinymacType_MQTTSN`
abbrev pub type_mqttsn : ℕ
type_mqttsn = 18

-- `PUBLISH(topic)` and `SUBSCRIBE(topic, qos)`
abbrev pub publish : List ℕ → Topic
publish topic = record { topic = topic; flags = 0 }

abbrev pub subscribe : List ℕ → ℕ → Topic
subscribe topic qos = record { topic = topic; flags = 128 + qos % 4 }

-- The strings of `topics`: "zone/1/" with "0/temp", "0/status", "0/important", "target" and "message".
abbrev zone : List ℕ → List ℕ
zone name = 0x7a ∷ 0x6f ∷ 0x6e ∷ 0x65 ∷ 0x2f ∷ 0x31 ∷ 0x2f ∷ name

abbrev pub topics : List Topic
topics =
    publish (zone (0x30 ∷ 0x2f ∷ 0x74 ∷ 0x65 ∷ 0x6d ∷ 0x70 ∷ []))
    ∷ publish (zone (0x30 ∷ 0x2f ∷ 0x73 ∷ 0x74 ∷ 0x61 ∷ 0x74 ∷ 0x75 ∷ 0x73 ∷ []))
    ∷ publish
        (zone (0x30 ∷ 0x2f ∷ 0x69 ∷ 0x6d ∷ 0x70 ∷ 0x6f ∷ 0x72 ∷ 0x74 ∷ 0x61 ∷ 0x6e ∷ 0x74 ∷ []))
    ∷ subscribe (zone (0x74 ∷ 0x61 ∷ 0x72 ∷ 0x67 ∷ 0x65 ∷ 0x74 ∷ [])) 0
    ∷ subscribe (zone (0x6d ∷ 0x65 ∷ 0x73 ∷ 0x73 ∷ 0x61 ∷ 0x67 ∷ 0x65 ∷ [])) 0
    ∷ []

-- `snprintf(idstr, sizeof(idstr), "test%04X", (uint16_t)(params.uuid & 0xffff))`
abbrev pub id_string : ℕ → List ℕ
id_string uuid =
    0x74
    ∷ 0x65
    ∷ 0x73
    ∷ 0x74
    ∷ hex_digit (uuid / 4096 % 16)
    ∷ hex_digit (uuid / 256 % 16)
    ∷ hex_digit (uuid / 16 % 16)
    ∷ hex_digit (uuid % 16)
    ∷ []

-- The contexts of the two libraries; the client's calls are made as soon as it returns, so none are kept.
pub record Endpoint : Type 0 where
  pub mac : Mac
  pub client : Client

-- `packet_send`, with its result
unfoldable pub packet_send : Mac → List ℕ → Mac × ℤ
packet_send m buf = send m 0 type_mqttsn buf 0 none

-- The client's calls, the oldest first; of its callbacks the program sets `cb_send` alone.
abbrev pub perform : Mac → Effect → Mac
perform m e = elim e [ sent buf ↦ (packet_send m buf).0 | _ ↦ m ]

unfoldable pub perform_all : Mac → List Effect → Mac
perform_all m [] = m
perform_all m (e ∷ es) = perform (perform_all m es) e

-- A call of the client, with the packets that it sends. What the sends return is used by no caller, so
-- they may follow the call.
unfoldable pub call_client : (Client → Client) → Endpoint → Endpoint
unfolding perform_all
call_client f e =
    let c = f (record e.client { log = [] }) in
    record { mac = perform_all e.mac c.log; client = record c { log = [] } }

-- `rx_handler`
unfoldable pub rx_handler : Endpoint → ℕ → DataPacket → Endpoint
rx_handler e now p =
    if p.type == type_mqttsn then call_client (λ c. c_handler c now (some p.buf)) e else e

abbrev pub to_handler : Endpoint → ℕ → Option DataPacket → Endpoint
to_handler e now none = e
to_handler e now (some p) = rx_handler e now p

-- The parameters of `main`, with a random UUID.
abbrev pub main_params : ℕ → Params
main_params uuid = record {
  uuid = uuid;
  coordinator = false;
  flags = 5;
  beacon_interval = 0;
  beacon_offset = 0;
}

-- The start-up of `main`, with the results of `rand()` and the seconds.
unfoldable pub start_up : Mac → ℕ → ℕ → ℕ → ℕ → ℕ → Endpoint
start_up m uuid bseq_rand dseq_rand net_rand now =
    call_client (λ c. c_connect c now)
      (record {
        mac = register_recv_cb (init m (main_params uuid) bseq_rand dseq_rand net_rand) true;
        client = c_init (id_string uuid) topics;
      })

-- A frame that the driver passes on, and the handler behind it: `tinymac_recv_cb` calls it last.
unfoldable pub on_frame : Endpoint → List ℕ → ℕ → ℕ → Endpoint
on_frame e frame rssi now =
    to_handler (record e { mac = recv_cb e.mac frame rssi }) now (handed e.mac frame rssi)

-- The tick of the loop of `main`.
unfoldable pub on_tick : Endpoint → ℕ → Endpoint
on_tick e now = call_client (λ c. c_handler c now none) (record e { mac = tick_handler e.mac })

abbrev pub max_events : ℕ
max_events = 4

-- What `main` sets up behind the start-up, with the driver's descriptor: the epoll and the timer.
unfoldable pub set_up : System → ℤ → Action (ℤ × ℤ)
set_up system phy_fd = do
  epoll_fd ← call system (epoll_create max_events)
  call system (epoll_add epoll_fd phy_fd 0)
  timer_fd ← watch_ticks system epoll_fd 1
  pure (epoll_fd, timer_fd)

-- An event: its number, with the frame that the driver passes on, if it does, and the seconds.
pub record Happening : Type 0 where
  pub source : ℕ
  pub waiting : Option (List ℕ)
  pub rssi : ℕ
  pub now : ℕ

abbrev pub on_phy_event : Endpoint → Option (List ℕ) → ℕ → ℕ → Endpoint
on_phy_event e none rssi now = e
on_phy_event e (some frame) rssi now = on_frame e frame rssi now

-- The body of the loop of `main` over the events.
unfoldable pub on_event : Endpoint → Happening → Endpoint
on_event e h =
    if h.source == 0
    then on_phy_event e h.waiting h.rssi h.now
    else if h.source == 1
    then on_tick e h.now
    else e

unfoldable pub on_events : Endpoint → List Happening → Endpoint
on_events e [] = e
on_events e (h ∷ hs) = on_events (on_event e h) hs

-- The end of `main`, behind its loop.
unfoldable pub shut_down : Endpoint → ℕ → Endpoint
shut_down e now = call_client (λ c. c_disconnect c now 0) e

-- The loop of `main` up to the signal that ends it, with what each `epoll_wait` gives, if it does not fail;
-- without a result `main` returns 1.
unfoldable pub main_loop : Endpoint → List (Option (List Happening)) → ℕ → Option Endpoint
unfolding shut_down
main_loop e [] now = some (shut_down e now)
main_loop e (none ∷ waits) now = none
main_loop e (some hs ∷ waits) now = main_loop (on_events e hs) waits now
