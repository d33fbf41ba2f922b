-- ===== src/Sniffer/Tests.antt =====
-- Frames on which tools/phy-sniffer/tinyhan-sniffer.c is run.
use tinyhan.Base.{List, ℕ, refl, ◌+◌, ◌≡◌, ◌++◌, false, true, some, arith, is_some}
use tinyhan.Base.Int.{pos}
use tinyhan.Mac.Types.{NodeState, Header, Mac}
use tinyhan.Mac.Wire.{header_bytes}
use tinyhan.Mac.Transmit.{beacon_header, beacon_payload}
use tinyhan.Mac.Receive.{zero_node, zeros}
use tinyhan.Mac.Run.{zero_mac}
use tinyhan.Mac.Client.{contains}
use tinyhan.Sniffer.{rx_func, beacon}
use tinyhan.Sniffer.Waiting.{read_text}
use tinyhan.Sniffer.Prints.{rx_func-fits, rx_func-beacon}

-- A coordinator with data for each of its nodes.
abbrev busy_hub : Mac
busy_hub = record (zero_mac (record { mtu = 254; send_rc = λ log frame. pos 0 })) {
  params = record {
    uuid = 9;
    coordinator = true;
    flags = 0;
    beacon_interval = 2;
    beacon_offset = 1;
  };
  net_id = 1;
  permit_attach = true;
  nodes = λ i. record zero_node { addr = i + 1; state = NodeState.send_pending };
}

abbrev beacon_frame : Header
beacon_frame = record { flags = 0; net_id = 1; dest_addr = 255; src_addr = 0; seq = 0 }

-- A beacon with 85 addresses is not printed.
rx_func-fits_example : is_some (rx_func 17 (header_bytes beacon_frame ++ zeros 97)) ≡ false
unfolding zeros
rx_func-fits_example = rx_func-fits 17 beacon_frame (zeros 97) (omega arith)

rx_func-beacon_example :
    let frame = header_bytes (beacon_header busy_hub) ++ beacon_payload busy_hub true in
    (text : List ℕ) × (rx_func 17 frame ≡ some (beacon (beacon_header busy_hub) true true 9 text))
    × (contains 3 (read_text text) ≡ true)
rx_func-beacon_example =
    let (text, printed, only, all, answer) =
      rx_func-beacon 17 busy_hub 3 (omega arith) (λ i h. omega (arith, h)) in
    (text, printed, all (2, omega arith, omega arith, refl, refl))
