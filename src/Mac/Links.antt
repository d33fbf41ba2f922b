-- ===== src/Mac/Links.antt =====
-- Two nodes of lib/tinymac.c that are registered with each other, and a frame from one to the other.
use tinyhan.Base.{
  ap, ℕ, zero, suc, ◌+◌, ◌^◌, ◌<◌, ◌≤◌, ◌≡◌, ◌≢◌, refl, sym, ◌∙◌, Bool, true, false, ◌&&◌, ◌||◌,
  not, some, List, ◌++◌, arith, ◌==◌, has_bit,
}
use tinyhan.Mac.Types.{
  NodeState, NodeRef, slot_ref, coord_ref, dummy_ref, Header, Node, Mac, Effect, node_at, set_node,
  update, is_unregistered, emit, phy_send, received,
}
use tinyhan.Mac.Wire.{
  ack_request_bit, addr_unassigned, network_any, max_nodes, sleepy_bit, header_bytes,
}
use tinyhan.Mac.Registry.{find_from, has_addr, get_node_by_addr}
use tinyhan.Mac.Transmit.{ack_header}
use tinyhan.Mac.Receive.{packet_type, is_addressed, is_barred, heard_from, rx_packet, recv_cb}
use tinyhan.Mac.Heard.{
  recv_cb-known, rx_packet-data, heard_from-free, heard_entry, mark_heard, mark_heard-Stays,
  node_at-mark_heard, node_at-emit,
}

find_from_same :
    (test : Node → Bool) (f g : ℕ → Node) (k n : ℕ)
    → ((j : ℕ) → test (f j) ≡ test (g j))
    → find_from test f k n ≡ find_from test g k n
unfolding find_from
find_from_same test f g zero n e = refl
find_from_same test f g (suc k) n e = rw (e n, find_from_same test f g k (n + 1) e) refl

-- A node's entry keeps its address and whether it is registered.
abbrev pub IsSameEntry : Node → Node → Type 0
IsSameEntry d d' = (d'.addr ≡ d.addr) × (is_unregistered d'.state ≡ is_unregistered d.state)

-- The look-up by address does not see the rest of an entry.
pub get_node_by_addr-set_node :
    (m : Mac) (r : NodeRef) (d : Node) (a : ℕ)
    → IsSameEntry (node_at m r) d
    → get_node_by_addr (set_node m r d) a ≡ get_node_by_addr m a
unfolding get_node_by_addr
get_node_by_addr-set_node m (slot_ref i) d a (ea, es) =
    let same : (j : ℕ) → has_addr a (update m.nodes i d j) ≡ has_addr a (m.nodes j) =
      λ j. ground (arith, ea, es) in
    rw (find_from_same (has_addr a) (update m.nodes i d) m.nodes max_nodes 0 same) refl
get_node_by_addr-set_node m coord_ref d a (ea, es) = rw (ea, es) refl
get_node_by_addr-set_node m dummy_ref d a (ea, es) = refl

-- `m` is an end of a working link to `k`: it knows `k` as its node `r`, which is registered and free, the
-- two have addresses of their own in one network.
pub record IsLinked (m : Mac) (r : NodeRef) (k : Mac) : Type 0 where
  pub found : get_node_by_addr m k.addr ≡ some r
  pub peer : (node_at m r).addr ≡ k.addr
  pub free : (node_at m r).state ≡ NodeState.registered
  pub own : m.addr ≢ addr_unassigned
  pub apart : m.addr ≢ k.addr
  pub network : m.net_id ≡ k.net_id
  pub proper : m.net_id ≢ network_any

-- A node that leaves its receiver on.
abbrev pub IsAwake : Mac → Type 0
IsAwake m = has_bit m.params.flags sleepy_bit ≡ false

-- A frame from one end of a link passes the filter of the other.
pub passes :
    (m k k' : Mac) (r s : NodeRef) (h : Header)
    → IsLinked m r k
    → IsLinked k s m
    → k'.addr ≡ k.addr
    → k'.net_id ≡ k.net_id
    → h.net_id ≡ m.net_id
    → h.dest_addr ≡ k.addr
    → h.src_addr ≡ m.addr
    → ((h.src_addr == k'.addr || not (is_addressed k' h) || is_barred k' h) ≡ false)
      × ((not (k'.addr == addr_unassigned) && not (h.src_addr == addr_unassigned)) ≡ true)
passes m k k' r s h v w ka kn hn hd hs =
    let a = v.own in
    let b = w.own in
    let c = v.apart in let d = v.network in let e = v.proper in (ground arith, ground arith)

-- The node at the far end of a link, when a frame has been heard of it.
pub recv_cb-linked :
    (m k : Mac) (r s : NodeRef) (h : Header) (p : List ℕ) (rssi : ℕ)
    → IsLinked m r k
    → IsLinked k s m
    → IsAwake k
    → h.flags < 2 ^ 16
    → h.net_id ≡ m.net_id
    → h.dest_addr ≡ k.addr
    → h.src_addr ≡ m.addr
    → recv_cb k (header_bytes h ++ p) rssi
      ≡ rx_packet (heard_from k s h rssi) (some s) h (header_bytes h ++ p)
recv_cb-linked m k r s h p rssi v w wake hf hn hd hs =
    let (b, a) = passes m k k r s h v w refl refl hn hd hs in
    recv_cb-known k h p rssi s hf b a wake (ap (get_node_by_addr k) hs ∙ w.found)

-- The coordinator's, or the client's, context when it has acknowledged a frame and handed it on.
abbrev pub taken : Mac → NodeRef → ℕ → Header → List ℕ → Mac
taken k s rssi h p =
    let k1 = mark_heard k s rssi in
    emit (emit k1 (phy_send (header_bytes (ack_header k1 s h.seq)) 0))
      (received (some s) (packet_type h) p)

-- A data frame that asks for an ack.
pub recv_cb-acked :
    (m k : Mac) (r s : NodeRef) (h : Header) (p : List ℕ) (rssi : ℕ)
    → IsLinked m r k
    → IsLinked k s m
    → IsAwake k
    → h.flags < 2 ^ 16
    → 16 ≤ packet_type h
    → has_bit h.flags ack_request_bit ≡ true
    → h.net_id ≡ m.net_id
    → h.dest_addr ≡ k.addr
    → h.src_addr ≡ m.addr
    → k.rx_cb ≡ true
    → recv_cb k (header_bytes h ++ p) rssi ≡ taken k s rssi h p
recv_cb-acked m k r s h p rssi v w wake hf ht hb hn hd hs hr =
    let heard : heard_from k s h rssi
        ≡ emit (mark_heard k s rssi)
            (phy_send (header_bytes (ack_header (mark_heard k s rssi) s h.seq)) 0) =
      heard_from-free k s rssi h wake (rw (w.free) refl) ∙ rw hb refl in
    recv_cb-linked m k r s h p rssi v w wake hf hn hd hs
    ∙ ap (λ (x : Mac). rx_packet x (some s) h (header_bytes h ++ p)) heard
    ∙ rx_packet-data _ (some s) h p hf ht ((mark_heard-Stays s rssi k).0 ∙ hr)

-- What a link is made of, which a call and a note of the time leave as they were.
abbrev pub IsSameEnd : Mac → Mac → Type 0
IsSameEnd k k' =
    ((a : ℕ) → get_node_by_addr k' a ≡ get_node_by_addr k a)
    × (k'.addr ≡ k.addr)
    × (k'.net_id ≡ k.net_id)
    × (k'.params ≡ k.params)

pub set_node-IsSameEnd :
    (k : Mac) (s : NodeRef) (d : Node) → IsSameEntry (node_at k s) d → IsSameEnd k (set_node k s d)
set_node-IsSameEnd k (slot_ref i) d e =
    (λ a. get_node_by_addr-set_node k (slot_ref i) d a e, refl, refl, refl)
set_node-IsSameEnd k coord_ref d e =
    (λ a. get_node_by_addr-set_node k coord_ref d a e, refl, refl, refl)
set_node-IsSameEnd k dummy_ref d e =
    (λ a. get_node_by_addr-set_node k dummy_ref d a e, refl, refl, refl)

pub get_node_by_addr-emit :
    (k : Mac) (e : Effect) (a : ℕ) → get_node_by_addr (emit k e) a ≡ get_node_by_addr k a
unfolding get_node_by_addr
get_node_by_addr-emit k e a = refl

-- It leaves the link as it was.
pub taken-IsLinked :
    (m k : Mac) (s : NodeRef) (rssi : ℕ) (h : Header) (p : List ℕ)
    → IsLinked k s m
    → IsLinked (taken k s rssi h p) s m
taken-IsLinked m k s rssi h p w =
    let k1 = mark_heard k s rssi in
    let e = phy_send (header_bytes (ack_header k1 s h.seq)) 0 in
    let e' = received (some s) (packet_type h) p in
    let (f, a, n, q) = set_node-IsSameEnd k s (heard_entry k s rssi) (refl, refl) in
    let entry : node_at (taken k s rssi h p) s ≡ heard_entry k s rssi =
      node_at-emit (emit k1 e) s e' ∙ node_at-emit k1 s e ∙ node_at-mark_heard k s rssi in
    record {
      found =
          get_node_by_addr-emit (emit k1 e) e' m.addr
          ∙ get_node_by_addr-emit k1 e m.addr
          ∙ f m.addr
          ∙ w.found;
      peer = ap (λ (d : Node). d.addr) entry ∙ w.peer;
      free = ap (λ (d : Node). d.state) entry ∙ w.free;
      own = rw a (w.own);
      apart = rw a (w.apart);
      network = n ∙ w.network;
      proper = rw n (w.proper);
    }

-- Only the far end's address and network matter to a link.
pub far-IsLinked :
    (m k k' : Mac) (r : NodeRef)
    → IsLinked m r k
    → k'.addr ≡ k.addr
    → k'.net_id ≡ k.net_id
    → IsLinked m r k'
far-IsLinked m k k' r v a n = record {
  found = ap (get_node_by_addr m) a ∙ v.found;
  peer = v.peer ∙ sym a;
  free = v.free;
  own = v.own;
  apart = rw a (v.apart);
  network = v.network ∙ sym n;
  proper = v.proper;
}

pub log-set_node : (m : Mac) (r : NodeRef) (d : Node) → (set_node m r d).log ≡ m.log
log-set_node m (slot_ref i) d = refl
log-set_node m coord_ref d = refl
log-set_node m dummy_ref d = refl
