-- ===== src/Si443x/Driver.antt =====
-- The other functions of lib/phy-si443x.c behind lib/phy.h. `phy_get_fd` returns 0.
use tinyhan.Base.{
  ℕ, zero, suc, ◌+◌, ◌-◌, ◌*◌, ◌/◌, ◌%◌, ◌^◌, Bool, ◌||◌, not, Option, none, some, ltb, ◌==◌,
  bit_or, if◌then◌else◌,
}
use tinyhan.Base.Int.{ℤ, pos, negsuc}
use tinyhan.Si443x.Regs.{
  r_device_type, r_device_version, r_int_enable, r_op_ctrl1, r_wu_period1, r_wu_period2, r_tx_power,
  r_channel, r_rx_length, r_fifo, entxffafull, entxffaem, enrxffafull, enpksent, enswdet, enpkvalid,
  encrcerror, enwut, enwt, rxon, xton, lna_sw, dt_mask, vc_mask, low_bits,
}
use tinyhan.Si443x.Regs.Scale.{txpow, txdbm}
use tinyhan.Si443x.Radio.{
  State, Driver, power_up, power_down, platform_init, spi_init, delay_ms, delivered, act, irq_low,
  si443x_read, read8, write8, write16, swreset,
}
use tinyhan.Si443x.Config.{device_init}
use tinyhan.Si443x.Events.{phy_listen, phy_standby, event_handler}

abbrev pub max_packet : ℕ
max_packet = 64

abbrev pub supported_device_type : ℕ
supported_device_type = 0x08

abbrev pub supported_device_version : ℕ
supported_device_version = 0x06

-- `phy_suspend` (its result is always 0)
unfoldable pub phy_suspend : Driver → Driver
phy_suspend d = act d power_down

-- `while (INP(nIRQ)) {}`, with fuel.
unfoldable pub await_irq : ℕ → Driver → Option Driver
await_irq zero d = none
await_irq (suc fuel) d =
    let (d1, low) = irq_low d in let later = await_irq fuel d1 in if low then some d1 else later

-- The interrupts that `phy_resume` enables.
abbrev pub enabled : ℕ
enabled =
    entxffafull + entxffaem + enrxffafull + enpksent + enswdet + enpkvalid + encrcerror + enwut

-- `phy_resume` behind the reset.
unfoldable pub configure : Driver → Driver
configure d =
    write16 (write16 (phy_standby (device_init (act d (delay_ms 1)))) r_int_enable 0) r_int_enable
      enabled

-- `phy_resume`
unfoldable pub phy_resume : ℕ → Driver → Option (Driver × ℤ)
phy_resume fuel d =
    let (d1, type) = read8 (act (act d power_up) (delay_ms 50)) r_device_type in
    let (d2, version) = read8 d1 r_device_version in
    if not (low_bits type dt_mask == supported_device_type)
      || not (low_bits version vc_mask == supported_device_version)
    then some (d2, negsuc 0)
    else elim (await_irq fuel (swreset d2)) [ none ↦ none | some d3 ↦ some (configure d3, pos 0) ]

-- `phy_init`
unfoldable pub phy_init : ℕ → Driver → Option (Driver × ℤ)
phy_init fuel d = phy_resume fuel (act (act d platform_init) spi_init)

-- The period of the wake-up timer, `(uint32_t)us * 32768ul / 4000000ul`.
unfoldable pub wake_up_period : ℕ → ℕ
wake_up_period us = us * 32768 % 2 ^ 32 / 4000000

-- `phy_delayed_standby` (its result is always 0)
unfoldable pub phy_delayed_standby : Driver → ℕ → Driver
unfolding wake_up_period
phy_delayed_standby d us =
    write8 (write16 (write8 d r_wu_period1 0) r_wu_period2 (wake_up_period us)) r_op_ctrl1
      (enwt + rxon + xton)

-- `phy_register_recv_cb`
unfoldable pub phy_register_recv_cb : Driver → Bool → Driver
phy_register_recv_cb d cb = record d { recv_cb = cb }

-- `phy_event_handler`: a valid packet, of which at most 64 bytes are read.
unfoldable pub receive : Driver → Driver
receive d =
    let (d1, len) = read8 d r_rx_length in
    let (d2, payload) = si443x_read d1 r_fifo (if ltb max_packet len then max_packet else len) in
    let d3 = phy_listen d2 in if d.recv_cb then act d3 (delivered payload d3.rssi) else d3

-- `phy_event_handler`: the switch on the state.
unfoldable pub on_state : State → Driver → Driver
unfolding receive
on_state State.rx_valid d = receive d
on_state State.rx_invalid d = phy_listen d
on_state State.fifo_error d = phy_listen d
on_state State.standby d = d
on_state State.listen d = d
on_state State.rx d = d
on_state State.rx_ready d = d
on_state State.tx d = d
on_state State.tx_busy d = d

-- `phy_event_handler`
unfoldable pub phy_event_handler : ℕ → Driver → Option Driver
phy_event_handler fuel d = elim (event_handler fuel d) [
  | none ↦ none
  | some d1 ↦ some (on_state d1.state d1)
]

-- `phy_set_power`, with its result
unfoldable pub phy_set_power : Driver → ℤ → Driver × ℤ
phy_set_power d dbm = (write8 d r_tx_power (bit_or (txpow dbm) lna_sw), txdbm (txpow dbm))

-- `phy_set_channel`, with its result
unfoldable pub phy_set_channel : Driver → ℕ → Driver × ℕ
phy_set_channel d n = (write8 d r_channel n, n)

-- `phy_get_mtu`
unfoldable pub phy_get_mtu : ℕ
phy_get_mtu = max_packet - 2
