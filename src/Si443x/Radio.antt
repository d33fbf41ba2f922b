-- ===== src/Si443x/Radio.antt =====
-- The driver of lib/phy-si443x.c on the wire: its state, and what it does over SPI. The radio is a
-- parameter: what it answers depends on all that happened on its pins.
use tinyhan.Base.{ℕ, zero, suc, ◌*◌, ◌+◌, ◌/◌, ◌%◌, Bool, List, [], ◌∷◌, bit_or, get_or}
use tinyhan.Base.Int.{ℤ}
use tinyhan.Si443x.Regs.{
  write_flag, read_flag, r_op_ctrl1, r_op_ctrl2, ffclrtx, ffclrrx, txon, rxon, xton, swres,
}

-- `si443x_state_t`
pub data State : Type 0 where
  standby listen rx rx_ready rx_valid rx_invalid fifo_error tx tx_busy : State

-- What the driver does: the macros of tinyhan_platform.h, a read of the nIRQ pin, and the receive
-- callback with a packet and its signal strength.
pub data Op : Type 0 where
  select deselect : Op
  io : ℕ → Op
  read_irq : Op
  wait_event : Op
  delay_ms : ℕ → Op
  power_up power_down platform_init spi_init : Op
  delivered : List ℕ → ℤ → Op

-- The radio: the byte that it shifts out, and whether it pulls nIRQ low, after what was done so far, the
-- newest first.
pub record Radio : Type 0 where
  pub miso : List Op → ℕ
  pub irq : List Op → Bool

-- The static variables of the driver, with the radio and what was done so far, the newest first. The
-- RSSI is in dBm.
pub record Driver : Type 0 where
  pub state : State
  pub rssi : ℤ
  pub recv_cb : Bool
  pub radio : Radio
  pub ops : List Op

abbrev pub act : Driver → Op → Driver
act d op = record d { ops = op ∷ d.ops }

-- `SPI_IO`
abbrev pub spi_io : Driver → ℕ → Driver × ℕ
spi_io d b = (act d (io b), d.radio.miso (io b ∷ d.ops) % 256)

-- `!INP(nIRQ)`
abbrev pub irq_low : Driver → Driver × Bool
irq_low d = (act d read_irq, d.radio.irq (read_irq ∷ d.ops))

-- The loop of `si443x_read` over the bytes left.
unfoldable pub read_bytes : Driver → ℕ → Driver × List ℕ
read_bytes d zero = (d, [])
read_bytes d (suc n) = let (d1, b) = spi_io d 0 in let (d2, bs) = read_bytes d1 n in (d2, b ∷ bs)

-- `si443x_read`
unfoldable pub si443x_read : Driver → ℕ → ℕ → Driver × List ℕ
si443x_read d addr size =
    let (d1, bs) = read_bytes (act (act d select) (io (bit_or read_flag (addr % 128)))) size in
    (act d1 deselect, bs)

-- The loop of `si433x_write`.
unfoldable pub write_bytes : Driver → List ℕ → Driver
write_bytes d [] = d
write_bytes d (b ∷ bs) = write_bytes (act d (io b)) bs

-- `si433x_write`
unfoldable pub si433x_write : Driver → ℕ → List ℕ → Driver
si433x_write d addr bs =
    act (write_bytes (act (act d select) (io (bit_or write_flag (addr % 128)))) bs) deselect

-- `si443x_read8`, `si443x_read16`, `si443x_write8` and `si443x_write16`; the radio is big-endian.
unfoldable pub read8 : Driver → ℕ → Driver × ℕ
unfolding si443x_read read_bytes
read8 d addr = let (d1, bs) = si443x_read d addr 1 in (d1, get_or bs 0 0)

unfoldable pub read16 : Driver → ℕ → Driver × ℕ
unfolding si443x_read read_bytes
read16 d addr = let (d1, bs) = si443x_read d addr 2 in (d1, get_or bs 0 0 * 256 + get_or bs 1 0)

unfoldable pub write8 : Driver → ℕ → ℕ → Driver
unfolding si433x_write write_bytes
write8 d addr v = si433x_write d addr (v % 256 ∷ [])

unfoldable pub write16 : Driver → ℕ → ℕ → Driver
unfolding si433x_write write_bytes
write16 d addr v = si433x_write d addr (v / 256 % 256 ∷ (v % 256 ∷ []))

-- `SI443X_CLEAR_FIFOS` and `SI443X_CLEAR_TX_FIFO`
unfoldable pub clear_fifos : Driver → Driver
unfolding write8
clear_fifos d = write8 (write8 d r_op_ctrl2 (ffclrtx + ffclrrx)) r_op_ctrl2 0

unfoldable pub clear_tx_fifo : Driver → Driver
unfolding write8
clear_tx_fifo d = write8 (write8 d r_op_ctrl2 ffclrtx) r_op_ctrl2 0

-- `SI443X_SWRESET`, `SI443X_MODE_STANDBY`, `SI443X_MODE_TX` and `SI443X_MODE_RX`
unfoldable pub swreset : Driver → Driver
unfolding write8
swreset d = write8 d r_op_ctrl1 swres

unfoldable pub mode_standby : Driver → Driver
unfolding write8
mode_standby d = write8 d r_op_ctrl1 0

unfoldable pub mode_tx : Driver → Driver
unfolding write8
mode_tx d = write8 d r_op_ctrl1 (txon + xton)

unfoldable pub mode_rx : Driver → Driver
unfolding write8
mode_rx d = write8 d r_op_ctrl1 (rxon + xton)
