-- ===== src/Si443x/Events.antt =====
-- The event handling of lib/phy-si443x.c, and the functions that it calls.
use tinyhan.Base.{ℕ, zero, suc, Bool, true, false, ◌&&◌, Option, none, some, has_bit, if◌then◌else◌}
use tinyhan.Si443x.Regs.{
  r_int_status, r_rssi, ifferr_bit, itxffafull_bit, itxffaem_bit, irxffafull_bit, ipksent_bit,
  ipkvalid_bit, icrcerror_bit, iswdet_bit, iwut_bit,
}
use tinyhan.Si443x.Regs.Scale.{rssi_dbm}
use tinyhan.Si443x.Radio.{State, Driver, irq_low, read8, read16, clear_fifos, mode_standby, mode_rx}

abbrev pub set_state : Driver → State → Driver
set_state d s = record d { state = s }

-- `phy_listen` (its result is always 0)
unfoldable pub phy_listen : Driver → Driver
unfolding clear_fifos mode_rx
phy_listen d = set_state (mode_rx (clear_fifos d)) State.listen

-- `phy_standby` (its result is always 0)
unfoldable pub phy_standby : Driver → Driver
unfolding clear_fifos mode_standby
phy_standby d = set_state (mode_standby (clear_fifos d)) State.standby

abbrev pub is_listen : State → Bool
is_listen s = elim s [ State.listen ↦ true | _ ↦ false ]

-- A sync word: the signal strength is sampled.
unfoldable pub sync : Driver → Driver
unfolding read8
sync d = let (d1, r) = read8 (set_state d State.rx) r_rssi in record d1 { rssi = rssi_dbm r }

abbrev pub when_bit : ℕ → ℕ → State → Driver → Driver
when_bit status k s d = if has_bit status k then set_state d s else d

-- The states that the status bits set, one after the other.
unfoldable pub on_events : Driver → ℕ → Driver
on_events d status = when_bit status ipksent_bit State.standby (
    when_bit status itxffaem_bit State.tx (
      when_bit status itxffafull_bit State.tx_busy (
        when_bit status ifferr_bit State.fifo_error (
          when_bit status icrcerror_bit State.rx_invalid (
            when_bit status ipkvalid_bit State.rx_valid
              (when_bit status irxffafull_bit State.rx_ready d))))))

-- The body of the loop of `si443x_event_handler`.
unfoldable pub on_status : Driver → ℕ → Driver
unfolding sync on_events phy_standby
on_status d status =
    let d1 = if is_listen d.state && has_bit status iswdet_bit then sync d else d in
    let d2 = on_events d1 status in if has_bit status iwut_bit then phy_standby d2 else d2

-- `si443x_event_handler`, with fuel; `none` when it runs out.
unfoldable pub event_handler : ℕ → Driver → Option Driver
event_handler zero d = none
event_handler (suc fuel) d =
    let (d1, low) = irq_low d in
    let (d2, status) = read16 d1 r_int_status in
    let later = event_handler fuel (on_status d2 status) in if low then later else some d1
