-- ===== src/Gateway.antt =====
-- examples/mqttsn-simple-gateway/main.c: a coordinator that relays MQTT-SN between its nodes and a broker,
-- with a UDP socket for each address.
pub mod Relays
pub mod Endpoints
pub mod Setup
pub mod Loop
mod Tests
use tinyhan.Base.{
  ℕ, zero, suc, ◌+◌, ◌*◌, ◌%◌, ◌^◌, [], ◌∷◌, true, Option, none, some, List, ltb, ◌==◌,
  if◌then◌else◌,
}
use tinyhan.Base.Int.{ℤ}
use tinyhan.Posix.{
  System, Action, pure, ◌>>=◌, ◌>>◌, call, epoll_create, epoll_add, socket, bind, watch_ticks,
}
use tinyhan.Mac.Types.{NodeRef, Params, Mac, node_at}
use tinyhan.Mac.Receive.{recv_cb}
use tinyhan.Mac.Upper.{handed}
use tinyhan.Mac.Api.{init, register_recv_cb, permit_attach, tick_handler, send}

-- `tinymacType_MQTTSN`
abbrev pub type_mqttsn : ℕ
type_mqttsn = 18

abbrev pub max_devices : ℕ
max_devices = 256

-- What `rx_handler` does with a packet: nothing, a datagram to the broker from the socket of an address, or a
-- read through a null pointer.
pub data Relay : Type 0 where
  ignored : Relay
  to_broker : ℕ → List ℕ → Relay
  null_read : Relay

-- `rx_handler`: `socks[node->addr]`
abbrev pub relay_from : Mac → Option NodeRef → List ℕ → Relay
relay_from m none buf = null_read
relay_from m (some r) buf = to_broker (node_at m r).addr buf

unfoldable pub rx_handler : Mac → Option NodeRef → ℕ → List ℕ → Relay
rx_handler m node type buf = if type == type_mqttsn then relay_from m node buf else ignored

-- A frame that the driver passes on, and the handler behind it.
unfoldable pub on_frame : Mac → List ℕ → ℕ → Mac × Relay
on_frame m frame rssi =
    let m1 = recv_cb m frame rssi in
    elim (handed m frame rssi) [
      | none ↦ (m1, ignored)
      | some p ↦ (m1, rx_handler m1 p.node p.type p.buf)
    ]

-- The parameters of `main`, with a random UUID.
abbrev pub main_params : ℕ → Params
main_params uuid = record {
  uuid = uuid;
  coordinator = true;
  flags = 0;
  beacon_interval = 3;
  beacon_offset = 0;
}

-- Its start-up, with the results of `rand()`.
unfoldable pub start_up : Mac → ℕ → ℕ → ℕ → ℕ → Mac
start_up m uuid bseq_rand dseq_rand net_rand =
    permit_attach (register_recv_cb (init m (main_params uuid) bseq_rand dseq_rand net_rand) true)
      true

abbrev pub max_events : ℕ
max_events = 16

abbrev pub device_port_base : ℕ
device_port_base = 11000

-- The sockets for the `k` devices from number `n` on, bound and watched.
unfoldable pub open_sockets : System → ℤ → ℕ → ℕ → Action (List ℤ)
open_sockets system epoll_fd zero n = pure []
open_sockets system epoll_fd (suc k) n = do
  sock ← call system socket
  call system (bind sock ((device_port_base + n) % 2 ^ 16))
  call system (epoll_add epoll_fd sock n)
  socks ← open_sockets system epoll_fd k (n + 1)
  pure (sock ∷ socks)

-- The descriptors of `main`.
pub record Files : Type 0 where
  pub epoll_fd : ℤ
  pub socks : List ℤ
  pub timer_fd : ℤ

-- What `main` sets up behind the MAC, with the driver's descriptor.
unfoldable pub set_up : System → ℤ → Action Files
unfolding open_sockets
set_up system phy_fd = do
  epoll_fd ← call system (epoll_create max_events)
  call system (epoll_add epoll_fd phy_fd max_devices)
  socks ← open_sockets system epoll_fd max_devices 0
  timer_fd ← watch_ticks system epoll_fd (max_devices + 1)
  pure (record { epoll_fd = epoll_fd; socks = socks; timer_fd = timer_fd })

-- The program while it runs: the MAC, and what `rx_handler` did with each frame, the newest first.
pub record Gateway : Type 0 where
  pub mac : Mac
  pub relays : List Relay

-- An event: its number, with the datagram of a socket (there is none where `recvfrom` fails) or the frame
-- that the driver passes on, if it does.
pub record Happening : Type 0 where
  pub source : ℕ
  pub waiting : Option (List ℕ)
  pub rssi : ℕ

-- A datagram from the broker.
unfoldable pub on_datagram : Gateway → ℕ → Option (List ℕ) → Option Gateway
on_datagram g source none = none
on_datagram g source (some payload) =
    some (record g { mac = (send g.mac (source % 256) type_mqttsn payload 0 none).0 })

unfoldable pub on_phy_event : Gateway → Option (List ℕ) → ℕ → Gateway
on_phy_event g none rssi = g
on_phy_event g (some frame) rssi =
    let (m, relay) = on_frame g.mac frame rssi in record { mac = m; relays = relay ∷ g.relays }

-- The body of the loop of `main` over the events; without a result `main` returns 1.
unfoldable pub on_event : Gateway → Happening → Option Gateway
on_event g h =
    if ltb h.source max_devices
    then on_datagram g h.source h.waiting
    else if h.source == max_devices
    then some (on_phy_event g h.waiting h.rssi)
    else if h.source == max_devices + 1
    then some (record g { mac = tick_handler g.mac })
    else some g

unfoldable pub on_events : Gateway → List Happening → Option Gateway
on_events g [] = some g
on_events g (h ∷ hs) = elim (on_event g h) [ none ↦ none | some g1 ↦ on_events g1 hs ]

-- The loop of `main` up to the signal that ends it, with what each `epoll_wait` gives, if it does not fail.
unfoldable pub main_loop : Gateway → List (Option (List Happening)) → Option Gateway
main_loop g [] = some g
main_loop g (none ∷ waits) = none
main_loop g (some hs ∷ waits) = elim (on_events g hs) [ none ↦ none | some g1 ↦ main_loop g1 waits ]
