-- ===== src/Sensor/Tests.antt =====
-- A sensor on which the loop of examples/sensor/main.c is run.
use mathlib.Core.Option
use tinyhan.Base.{ℕ, ◌+◌, ◌*◌, ◌/◌, ◌<◌, ◌≤◌, ◌≡◌, refl, false, true, none, some, [], ◌∷◌, arith}
use tinyhan.Base.Int.{pos}
use tinyhan.Mac.Types.{Mac}
use tinyhan.Mac.Run.{zero_mac}
use tinyhan.Mac.Types.{ClientState, NodeState, slot_ref, coord_ref, received}
use tinyhan.Mac.Registry.{find_from, get_node_by_addr}
use tinyhan.Mac.Transmit.Exchange.{frame_of}
use tinyhan.Mac.Receive.{zero_node, recv_cb}
use tinyhan.Mac.Links.{IsLinked}
use tinyhan.Sensor.Posts.{post_message-delivers}
use tinyhan.Sensor.{vbatt_mv, start_up, main_params}
use tinyhan.Sensor.Turns.{Wake}
use tinyhan.Sensor.Schedule.{view, run, ideal_loop, run-start_up}
use tinyhan.Sensor.Battery.{scaled_vref, vbatt_mv-quotient}
use tinyhan.Base.Bytes.{read_le, le_bytes}

abbrev driverless : Mac
driverless = zero_mac (record { mtu = 62; send_rc = λ log frame. pos 0 })

-- The loop is woken by the timer, by the radio, and by the timer, at a count that wraps.
abbrev now : Wake
now = record { elapsed = 0; adc = 341; frame = none; rssi = 0 }

abbrev tick : Wake
tick = record { elapsed = 1; adc = 341; frame = none; rssi = 0 }

abbrev radio : Wake
radio = record { elapsed = 0; adc = 341; frame = some (16 ∷ 0 ∷ 1 ∷ 2 ∷ 3 ∷ 4 ∷ 1 ∷ []); rssi = 60 }

run-start_up_example :
    Option.map view
      (run 2147483647 0 (start_up driverless false 1 2 3) (now ∷ tick ∷ radio ∷ tick ∷ []))
    ≡ Option.map view (ideal_loop (start_up driverless false 1 2 3) now (tick ∷ radio ∷ tick ∷ []))
run-start_up_example =
    run-start_up driverless false 1 2 3 2147483647 now (tick ∷ radio ∷ tick ∷ []) (omega arith) refl
      (omega arith, (omega arith, (omega arith, tt)))

vbatt_mv-quotient_example :
    (mv : ℕ) × (vbatt_mv 341 ≡ some mv)
    × (read_le 2 (le_bytes 2 mv) ≡ mv)
    × (18 ≤ 341 → (mv * 341 ≤ scaled_vref) × (scaled_vref < mv * 341 + 341))
    × (341 < 18 → mv + 65536 ≤ scaled_vref / 341)
vbatt_mv-quotient_example = vbatt_mv-quotient 341 (omega arith)

-- A sensor that is registered with a coordinator in its third slot.
abbrev sensor : Mac
sensor = record driverless {
  params = main_params;
  phy_mtu = 62;
  net_id = 1;
  addr = 3;
  state = ClientState.registered;
  rx_cb = true;
  coord = record zero_node { state = NodeState.registered; uuid = 9 };
}

abbrev hub : Mac
hub = record driverless {
  params = record {
    uuid = 9;
    coordinator = true;
    flags = 0;
    beacon_interval = 2;
    beacon_offset = 1;
  };
  phy_mtu = 62;
  net_id = 1;
  state = ClientState.registered;
  rx_cb = true;
  nodes = λ i. record zero_node { addr = i + 1; uuid = i + 5; state = NodeState.registered };
}

sensor-IsLinked : IsLinked sensor coord_ref hub
unfolding get_node_by_addr
sensor-IsLinked = record {
  found = refl;
  peer = refl;
  free = refl;
  own = omega arith;
  apart = omega arith;
  network = refl;
  proper = omega arith;
}

hub-IsLinked : IsLinked hub (slot_ref 2) sensor
unfolding get_node_by_addr find_from
hub-IsLinked = record {
  found = refl;
  peer = refl;
  free = refl;
  own = omega arith;
  apart = omega arith;
  network = refl;
  proper = omega arith;
}

-- A conversion of 341 stands for 3303 mV.
post_message-delivers_example :
    (recv_cb hub (frame_of sensor coord_ref 16 (le_bytes 2 3303)) 60).log
    ≡ received (some (slot_ref 2)) 16 (le_bytes 2 3303) ∷ []
post_message-delivers_example =
    (post_message-delivers sensor hub 2 341 60 sensor-IsLinked hub-IsLinked refl refl refl refl refl
      (omega arith) (omega arith)).2
