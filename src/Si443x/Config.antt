-- ===== src/Si443x/Config.antt =====
-- The radio's configuration in lib/phy-si443x.c, and how it is loaded.
use tinyhan.Base.{ℕ, zero, suc, ◌+◌, ◌-◌, ◌/◌, ◌%◌, List, [], ◌∷◌, ◌==◌, if◌then◌else◌, bit_or}
use tinyhan.Base.Int.{negsuc}
use tinyhan.Si443x.Regs.{
  write_flag, r_gpio0_cfg, r_data_access_ctrl, r_tx_fifo_ctrl1, r_header_ctrl1, r_tx_power,
  r_channel, r_if_bandwidth, r_afc_limiter, lna_sw, enpacrx, enpactx, encrc,
}
use tinyhan.Si443x.Regs.Scale.{txdr_high, fd, fb, fc, txpow}
use tinyhan.Si443x.Radio.{Driver, select, deselect, io, act}

abbrev pub cfg_frequency_f0 : ℕ
cfg_frequency_f0 = 868000000

abbrev pub cfg_channel_step : ℕ
cfg_channel_step = 10

abbrev pub cfg_deviation : ℕ
cfg_deviation = 25000

abbrev pub cfg_bitrate : ℕ
cfg_bitrate = 50000

abbrev pub cfg_tx_preamble : ℕ
cfg_tx_preamble = 8

abbrev pub def_channel : ℕ
def_channel = 100

abbrev pub fifo_size : ℕ
fifo_size = 64

abbrev pub tx_wait_thresh : ℕ
tx_wait_thresh = fifo_size - 6

abbrev pub tx_resume_thresh : ℕ
tx_resume_thresh = fifo_size / 2

abbrev pub rx_block_size : ℕ
rx_block_size = fifo_size / 2

-- `phy_si443x_config`: groups of an address, the number of registers and their values.
unfoldable pub phy_si443x_config : List ℕ
unfolding txdr_high fd fb fc txpow
phy_si443x_config =
    r_gpio0_cfg
    ∷ 3
    ∷ 21
    ∷ 18
    ∷ 0
    ∷ r_data_access_ctrl
    ∷ 1
    ∷ (enpacrx + enpactx + encrc)
    ∷ r_tx_fifo_ctrl1
    ∷ 3
    ∷ tx_wait_thresh
    ∷ tx_resume_thresh
    ∷ (rx_block_size - 1)
    ∷ r_header_ctrl1
    ∷ 8
    ∷ 0
    ∷ 2
    ∷ cfg_tx_preamble
    ∷ 16
    ∷ 0x2d
    ∷ 0xd2
    ∷ 0
    ∷ 0
    ∷ r_tx_power
    ∷ 11
    ∷ bit_or (txpow (negsuc 7)) lna_sw
    ∷ (txdr_high cfg_bitrate / 256 % 256)
    ∷ (txdr_high cfg_bitrate % 256)
    ∷ 0
    ∷ 0x23
    ∷ fd cfg_deviation
    ∷ 0
    ∷ 0
    ∷ fb cfg_frequency_f0
    ∷ (fc cfg_frequency_f0 / 256 % 256)
    ∷ (fc cfg_frequency_f0 % 256)
    ∷ r_channel
    ∷ 2
    ∷ def_channel
    ∷ (cfg_channel_step / 10)
    ∷ r_if_bandwidth
    ∷ 10
    ∷ 0x05
    ∷ 0x40
    ∷ 0x0a
    ∷ 0x03
    ∷ 0x50
    ∷ 0x01
    ∷ 0x99
    ∷ 0x9a
    ∷ 0x06
    ∷ 0x68
    ∷ r_afc_limiter
    ∷ 5
    ∷ 0x28
    ∷ 0x00
    ∷ 0x28
    ∷ 0x19
    ∷ 0x29
    ∷ 0
    ∷ []

-- Where the loader stands in the table: at a group, behind its address, or among its values.
pub data Place : Type 0 where
  group : Place
  address : ℕ → Place
  values : ℕ → Place

-- `SELECT(); SPI_IO(WRITE | address);`
abbrev pub open_write : Driver → ℕ → Driver
open_write d a = act (act d select) (io (bit_or write_flag a))

-- The place when `n` values are left.
abbrev pub place_in : ℕ → Place
place_in zero = group
place_in (suc n) = values n

abbrev pub end_block : Driver → ℕ → Driver
end_block d zero = act d deselect
end_block d (suc n) = d

abbrev pub open_block : Driver → ℕ → ℕ → Driver
open_block d a n = end_block (open_write d a) n

-- The loops of `si443x_device_init`; the end of the table without a terminator is not read past.
unfoldable pub load : Driver → Place → List ℕ → Driver
load d p [] = d
load d group (a ∷ table) = if a == 0 then d else load d (address a) table
load d (address a) (n ∷ table) = load (open_block d a n) (place_in n) table
load d (values k) (b ∷ table) = load (end_block (act d (io b)) k) (place_in k) table

-- `si443x_device_init`
unfoldable pub device_init : Driver → Driver
unfolding load
device_init d = load d group phy_si443x_config
