-- ===== src/Mac/Upper.antt =====
-- What `tinymac_recv_cb` of lib/tinymac.c hands to the function that the application registered.
use tinyhan.Base.{
  ℕ, suc, ◌-◌, ◌≤◌, ◌≡◌, refl, Option, none, some, List, [], ◌∷◌, arith, length, take,
}
use tinyhan.Mac.Types.{NodeRef, Mac, Effect, received}
use tinyhan.Mac.Receive.{recv_cb}

-- The arguments of the callback.
pub record DataPacket : Type 0 where
  pub node : Option NodeRef
  pub type : ℕ
  pub buf : List ℕ

abbrev pub packet_of : Effect → Option DataPacket
packet_of e = elim e [
  | received sender type buf ↦ some (record { node = sender; type = type; buf = buf })
  | _ ↦ none
]

-- The call is the last thing that `tinymac_recv_cb` does, if it makes it.
abbrev pub last_packet : List Effect → Option DataPacket
last_packet [] = none
last_packet (e ∷ es) = packet_of e

-- The calls that were made between two contexts.
abbrev pub new_calls : Mac → Mac → List Effect
new_calls m m1 = take (length m1.log - length m.log) m1.log

-- The packet of a received frame that goes to the upper layer.
unfoldable pub handed : Mac → List ℕ → ℕ → Option DataPacket
handed m buf rssi = last_packet (new_calls m (recv_cb m buf rssi))

pub handed-received :
    (m : Mac) (frame : List ℕ) (rssi : ℕ) (sender : Option NodeRef) (type : ℕ) (buf : List ℕ)
    (log : List Effect)
    → (recv_cb m frame rssi).log ≡ received sender type buf ∷ log
    → length m.log ≤ length log
    → handed m frame rssi ≡ some (record { node = sender; type = type; buf = buf })
unfolding handed
handed-received m frame rssi sender type buf log e h =
    let n : suc (length log) - length m.log ≡ suc (length log - length m.log) = omega arith in
    rw (e, n) refl
