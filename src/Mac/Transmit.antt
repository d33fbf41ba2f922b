-- ===== src/Mac/Transmit.antt =====
-- The transmit functions of lib/tinymac.c.
pub mod Exchange
pub mod Acks
use tinyhan.Base.{
  ℕ, zero, suc, ◌+◌, ◌%◌, Bool, ◌||◌, not, Option, none, some, List, [], ◌∷◌, ◌++◌, ltb, length,
  take, drop, has_bit, if◌then◌else◌, bit_or,
}
use tinyhan.Base.Int.{ℤ, pos, negsuc, is_neg}
use tinyhan.Mac.Types.{
  NodeState, NodeRef, Header, Node, Mac, ack_timeout_cb, validity_timeout_cb, is_registered,
  is_send_pending, node_at, set_node, emit, notify, phy_send, phy_standby, phy_delayed_standby,
}
use tinyhan.Mac.Wire.PacketType
use tinyhan.Mac.Wire.{
  addr_broadcast, beacon_interval_no_beacon, max_nodes, max_payload, max_retries, ack_timeout_ms,
  listen_period_us, ack_request_bit, sleepy_bit, header_size, millis, seconds, header_bytes,
  beacon_bytes,
}
use tinyhan.Mac.Timers.{set_timer, cancel_timer}

-- `tinymac_phy_send`
unfoldable pub mac_phy_send : Mac → List ℕ → ℕ → Mac × ℤ
mac_phy_send m frame flags =
    let rc = m.phy.send_rc m.log frame in
    let m1 = emit m (phy_send frame flags) in
    (
      if has_bit m.params.flags sleepy_bit
          then if is_neg rc
            then emit m1 phy_standby
            else emit m1 (phy_delayed_standby listen_period_us)
          else m1,
      rc,
    )

-- `memcpy(dest, src, size)` into the front of a buffer.
abbrev pub memcpy : List ℕ → List ℕ → List ℕ
memcpy dest src = src ++ drop (length src) dest

-- The copy that `tinymac_tx_packet` keeps for a (re-)transmission.
abbrev pub keep_copy : Node → Header → List ℕ → Option ℕ → Node
keep_copy d hdr buf cb = record d {
  pending = memcpy d.pending buf;
  pending_header = hdr;
  pending_size = length buf;
  send_cb = cb;
  retries = max_retries;
}

-- The part of `tinymac_tx_packet` for unicast packets, with the sending behind it.
unfoldable pub tx_unicast : Mac → NodeRef → Header → ℕ → List ℕ → ℕ → Option ℕ → Mac × ℤ
tx_unicast m r hdr flags_type buf validity cb =
    let d = node_at m r in
    let kept = keep_copy d hdr buf cb in
    if not (is_registered d.state)
    then (m, negsuc 0)
    else if has_bit d.flags sleepy_bit
    then (
      set_node m r (record kept {
        validity_timer = set_timer m validity_timeout_cb (some r) (seconds validity);
        state = NodeState.send_pending;
      }),
      pos 0,
    )
    else if has_bit flags_type ack_request_bit
    then mac_phy_send
        (set_node m r (record kept {
          ack_timer = set_timer m ack_timeout_cb (some r) (millis ack_timeout_ms);
          state = NodeState.wait_ack;
        }))
        (header_bytes hdr ++ buf) 0
    else mac_phy_send m (header_bytes hdr ++ buf) 0

-- `dest ? dest->addr : TINYMAC_ADDR_BROADCAST`
abbrev pub dest_addr_of : Mac → Option NodeRef → ℕ
dest_addr_of m none = addr_broadcast
dest_addr_of m (some r) = (node_at m r).addr

-- The header that `tinymac_tx_packet` builds.
abbrev pub tx_header : Mac → Option NodeRef → ℕ → Header
tx_header m dest flags_type = record {
  flags = flags_type;
  net_id = m.net_id;
  dest_addr = dest_addr_of m dest;
  src_addr = m.addr;
  seq = (m.dseq + 1) % 256;
}

-- `++tinymac_ctx->dseq`
abbrev pub next_dseq : Mac → Mac
next_dseq m = record m { dseq = (m.dseq + 1) % 256 }

-- The size check of `tinymac_tx_packet`.
abbrev pub too_large : Mac → List ℕ → Bool
too_large m buf = ltb max_payload (length buf) || ltb m.phy_mtu (length buf + header_size)

-- Both kinds of destination of `tinymac_tx_packet`, behind the header.
unfoldable pub tx_to : Mac → Option NodeRef → Header → ℕ → List ℕ → ℕ → Option ℕ → Mac × ℤ
tx_to m none hdr flags_type buf validity cb = mac_phy_send m (header_bytes hdr ++ buf) 0
tx_to m (some r) hdr flags_type buf validity cb = tx_unicast m r hdr flags_type buf validity cb

-- `tinymac_tx_packet`
unfoldable pub tx_packet : Mac → Option NodeRef → ℕ → List ℕ → ℕ → Option ℕ → Mac × ℤ
tx_packet m dest flags_type buf validity cb =
    if too_large m buf
    then (m, negsuc 0)
    else tx_to (next_dseq m) dest (tx_header m dest flags_type) flags_type buf validity cb

-- The frame that a node's pending packet makes.
abbrev pub pending_frame : Node → List ℕ
pending_frame d = header_bytes d.pending_header ++ take d.pending_size d.pending

-- No ack is required: success is assumed.
abbrev pub assume_sent : Mac → NodeRef → Mac
assume_sent m r =
    let d = node_at m r in
    notify (set_node m r (record d { validity_timer = cancel_timer d.validity_timer })) d.send_cb
      (pos 0)

-- `tinymac_tx_pending` (its result is always 0)
unfoldable pub tx_pending : Mac → NodeRef → Mac
tx_pending m r =
    let d = node_at m r in
    if not (is_send_pending d.state)
    then m
    else if has_bit d.pending_header.flags ack_request_bit
    then (mac_phy_send
        (set_node m r (record d {
          state = NodeState.wait_ack;
          ack_timer = set_timer m ack_timeout_cb (some r) (millis ack_timeout_ms);
        }))
        (pending_frame d) 0).0
    else assume_sent
        (mac_phy_send (set_node m r (record d { state = NodeState.registered })) (pending_frame d)
          0).0
        r

-- The header of an ACK to a node.
abbrev pub ack_header : Mac → NodeRef → ℕ → Header
ack_header m r seq = record {
  flags =
      if is_send_pending (node_at m r).state then bit_or PacketType.ack 0x80 else PacketType.ack;
  net_id = m.net_id;
  dest_addr = (node_at m r).addr;
  src_addr = m.addr;
  seq = seq;
}

-- `tinymac_tx_ack`
unfoldable pub tx_ack : Mac → NodeRef → ℕ → Mac
tx_ack m r seq =
    let (m1, rc) = mac_phy_send m (header_bytes (ack_header m r seq)) 0 in
    if is_neg rc then m1 else tx_pending m1 r

-- The addresses of the `k` nodes from index `n` on that have data pending.
unfoldable pub pending_addrs : (ℕ → Node) → ℕ → ℕ → List ℕ
pending_addrs nodes zero n = []
pending_addrs nodes (suc k) n =
    let rest = pending_addrs nodes k (n + 1) in
    if is_send_pending (nodes n).state then (nodes n).addr ∷ rest else rest

-- The payload of a beacon.
abbrev pub beacon_payload : Mac → Bool → List ℕ
beacon_payload m periodic =
    beacon_bytes m.params.uuid m.slot
      (bit_or (if periodic then 1 else 0) (if m.permit_attach then 2 else 0))
      beacon_interval_no_beacon (if periodic then pending_addrs m.nodes max_nodes 0 else [])

abbrev pub beacon_header : Mac → Header
beacon_header m = record {
  flags = PacketType.beacon;
  net_id = m.net_id;
  dest_addr = addr_broadcast;
  src_addr = m.addr;
  seq = (m.bseq + 1) % 256;
}

-- `tinymac_tx_beacon`
unfoldable pub tx_beacon : Mac → Bool → Mac
tx_beacon m periodic =
    if not m.params.coordinator
    then m
    else (mac_phy_send (record m { bseq = (m.bseq + 1) % 256 })
        (header_bytes (beacon_header m) ++ beacon_payload m periodic) (if periodic then 1 else 0)).0
