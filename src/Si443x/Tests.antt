-- ===== src/Si443x/Tests.antt =====
-- Tests of lib/phy-si443x.c on small radios.
use tinyhan.Base.{
  ℕ, ◌==◌, zero, suc, ◌<◌, ◌≤◌, ◌≡◌, refl, Bool, true, false, none, some, List, [], ◌∷◌, arith,
  bit_or, if◌then◌else◌,
}
use tinyhan.Base.Int.{pos}
use tinyhan.Si443x.Regs.{r_tx_power, lna_sw}
use tinyhan.Si443x.Radio.{
  State, Op, Radio, Driver, select, deselect, io, read_irq, wait_event, write8,
}
use tinyhan.Si443x.Config.{group, load}
use tinyhan.Si443x.Send.{Rest, phy_send}
use tinyhan.Si443x.Driver.{phy_event_handler, phy_set_power}
use tinyhan.Si443x.Wire.{fifo}
use tinyhan.Si443x.Sends.{fifo-phy_send}
use tinyhan.Si443x.Calm.{IsCalm, packet_sent, calm-phy_send}
use tinyhan.Si443x.Hang.{IsWoken, woken-phy_send}
use tinyhan.Si443x.Loads.{config_blocks, config_blocks-AreAddresses, encode, write_all, load-encode}
use tinyhan.Si443x.Tuning.{phy_set_power-dbm_at}
use tinyhan.Si443x.Receives.{IsDelivery, seen, phy_event_handler-IsDelivery}
use tinyhan.Si443x.Returns.{reads, ClearsAt, phy_event_handler-returns}

-- A radio that sends what it is given.
abbrev calm_miso : List Op → ℕ
calm_miso (io zero ∷ (io (suc b) ∷ (select ∷ (read_irq ∷ (wait_event ∷ ops))))) = 4
calm_miso ops = 0

abbrev calm_irq : List Op → Bool
calm_irq (read_irq ∷ (wait_event ∷ ops)) = true
calm_irq ops = false

abbrev calm_radio : Radio
calm_radio = record { miso = calm_miso; irq = calm_irq }

calm_radio-IsCalm : IsCalm calm_radio
calm_radio-IsCalm = record {
  after_io = λ b ops. refl;
  after_deselect = λ ops. refl;
  after_wait = λ ops. refl;
  sent_high = λ ops. refl;
  sent_low = λ ops. refl;
}

abbrev driver : Radio → Driver
driver radio = record {
  state = State.listen;
  rssi = pos 0;
  recv_cb = true;
  radio = radio;
  ops = [];
}

-- Two fragments with an empty one between them.
abbrev fragments : Rest
fragments = record { buf = 1 ∷ 2 ∷ []; bufs = [] ∷ (3 ∷ []) ∷ [] }

abbrev fragment_bytes : List ℕ
fragment_bytes = 1 ∷ 2 ∷ 3 ∷ []

calm-phy_send_example :
    (phy_send 3 (driver calm_radio) fragments
      ≡ some (packet_sent (driver calm_radio) fragments, pos 0))
    × ((packet_sent (driver calm_radio) fragments).state ≡ State.listen)
    × (fifo (packet_sent (driver calm_radio) fragments) ≡ fragment_bytes)
calm-phy_send_example = calm-phy_send 0 (driver calm_radio) fragments calm_radio-IsCalm refl refl

fifo-phy_send_example : fifo (packet_sent (driver calm_radio) fragments) ≡ fragment_bytes
fifo-phy_send_example =
    fifo-phy_send 3 (driver calm_radio) (packet_sent (driver calm_radio) fragments) fragments
      (pos 0) (calm-phy_send 0 (driver calm_radio) fragments calm_radio-IsCalm refl refl).0

-- A radio whose wake-up timer fires behind the first byte of a transaction.
abbrev woken_miso : List Op → ℕ
woken_miso (io zero ∷ (io zero ∷ (io (suc b) ∷ (select ∷ (read_irq ∷ (deselect ∷ ops)))))) = 8
woken_miso ops = 0

abbrev woken_irq : List Op → Bool
woken_irq (read_irq ∷ (deselect ∷ (read_irq ∷ (io b ∷ ops)))) = true
woken_irq (read_irq ∷ (io b ∷ (io a ∷ ops))) = a == 255
woken_irq ops = false

abbrev woken_radio : Radio
woken_radio = record { miso = woken_miso; irq = woken_irq }

woken_radio-IsWoken : IsWoken woken_radio
woken_radio-IsWoken = record {
  after_first = λ b ops. refl;
  after_deselect = λ b ops. refl;
  status_high = λ ops. refl;
  status_low = λ ops. refl;
  after_write = λ b ops. refl;
  after_wait = λ ops. refl;
}

woken-phy_send_example : phy_send 1000 (driver woken_radio) fragments ≡ none
woken-phy_send_example =
    woken-phy_send 1000 (driver woken_radio) fragments (omega arith) woken_radio-IsWoken refl refl

-- A radio with a valid packet of two bytes, reported once.
abbrev answer : ℕ → ℕ
answer command =
    if command == 3 then 2 else if command == 75 then 2 else if command == 127 then 7 else 60

abbrev arrival_miso : List Op → ℕ
arrival_miso (io zero ∷ (io (suc b) ∷ ops)) = answer (suc b)
arrival_miso (io zero ∷ (io zero ∷ (io (suc b) ∷ ops))) = if b == 126 then 9 else 0
arrival_miso ops = 0

-- nIRQ is low until the status is read.
abbrev arrival_irq : List Op → Bool
arrival_irq ops = reads ops == 0

abbrev arrival_radio : Radio
arrival_radio = record { miso = arrival_miso; irq = arrival_irq }

abbrev receiver : Driver
receiver = driver arrival_radio

receiver-ClearsAt : ClearsAt 1 arrival_radio
unfolding reads
receiver-ClearsAt ops h = ground arith

phy_event_handler-returns_example : (d' : Driver) × (phy_event_handler 2 receiver ≡ some d')
unfolding reads
phy_event_handler-returns_example =
    phy_event_handler-returns 1 2 receiver (omega arith) receiver-ClearsAt

abbrev after_arrival : Driver
unfolding reads
after_arrival = (phy_event_handler-returns 1 2 receiver (omega arith) receiver-ClearsAt).0

phy_event_handler-IsDelivery_example : IsDelivery (seen receiver) (seen after_arrival)
unfolding reads
phy_event_handler-IsDelivery_example =
    phy_event_handler-IsDelivery 2 receiver after_arrival refl
      (phy_event_handler-returns 1 2 receiver (omega arith) receiver-ClearsAt).1

load-encode_example : load receiver group (encode config_blocks) ≡ write_all receiver config_blocks
load-encode_example = load-encode config_blocks receiver config_blocks-AreAddresses

-- 13 dBm, the highest power, and 16 dBm, which is set as the lowest.
phy_set_power-dbm_at_example :
    (phy_set_power receiver (pos 13) ≡ (write8 receiver r_tx_power (bit_or 7 lna_sw), pos 13))
    × (21 ≤ 21)
    × (21 < 24)
phy_set_power-dbm_at_example = phy_set_power-dbm_at 21 receiver
