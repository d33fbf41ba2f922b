-- ===== src/Si443x/Regs.antt =====
-- Addresses, flags and values of the registers in lib/si443x_regs.h, built for the high band. A flag is
-- its bit position where the driver tests it, and its value where the driver writes it.
pub mod Scale
use tinyhan.Base.{ℕ, ◌+◌, ◌%◌}

abbrev pub write_flag : ℕ
write_flag = 0x80

abbrev pub read_flag : ℕ
read_flag = 0x00

abbrev pub r_device_type : ℕ
r_device_type = 0x00

abbrev pub r_device_version : ℕ
r_device_version = 0x01

abbrev pub r_int_status : ℕ
r_int_status = 0x03

abbrev pub r_int_enable : ℕ
r_int_enable = 0x05

abbrev pub r_op_ctrl1 : ℕ
r_op_ctrl1 = 0x07

abbrev pub r_op_ctrl2 : ℕ
r_op_ctrl2 = 0x08

abbrev pub r_gpio0_cfg : ℕ
r_gpio0_cfg = 0x0b

abbrev pub r_wu_period1 : ℕ
r_wu_period1 = 0x14

abbrev pub r_wu_period2 : ℕ
r_wu_period2 = 0x15

abbrev pub r_if_bandwidth : ℕ
r_if_bandwidth = 0x1c

abbrev pub r_rssi : ℕ
r_rssi = 0x26

abbrev pub r_afc_limiter : ℕ
r_afc_limiter = 0x2a

abbrev pub r_data_access_ctrl : ℕ
r_data_access_ctrl = 0x30

abbrev pub r_header_ctrl1 : ℕ
r_header_ctrl1 = 0x32

abbrev pub r_tx_length : ℕ
r_tx_length = 0x3e

abbrev pub r_rx_length : ℕ
r_rx_length = 0x4b

abbrev pub r_tx_power : ℕ
r_tx_power = 0x6d

abbrev pub r_channel : ℕ
r_channel = 0x79

abbrev pub r_tx_fifo_ctrl1 : ℕ
r_tx_fifo_ctrl1 = 0x7c

abbrev pub r_fifo : ℕ
r_fifo = 0x7f

-- Bit positions in the interrupt status and enable registers.
abbrev pub ifferr_bit : ℕ
ifferr_bit = 15

abbrev pub itxffafull_bit : ℕ
itxffafull_bit = 14

abbrev pub itxffaem_bit : ℕ
itxffaem_bit = 13

abbrev pub irxffafull_bit : ℕ
irxffafull_bit = 12

abbrev pub ipksent_bit : ℕ
ipksent_bit = 10

abbrev pub ipkvalid_bit : ℕ
ipkvalid_bit = 9

abbrev pub icrcerror_bit : ℕ
icrcerror_bit = 8

abbrev pub iswdet_bit : ℕ
iswdet_bit = 7

abbrev pub iwut_bit : ℕ
iwut_bit = 3

-- Values in the control registers.
abbrev pub entxffafull : ℕ
entxffafull = 16384

abbrev pub entxffaem : ℕ
entxffaem = 8192

abbrev pub enrxffafull : ℕ
enrxffafull = 4096

abbrev pub enpksent : ℕ
enpksent = 1024

abbrev pub enpkvalid : ℕ
enpkvalid = 512

abbrev pub encrcerror : ℕ
encrcerror = 256

abbrev pub enswdet : ℕ
enswdet = 128

abbrev pub enwut : ℕ
enwut = 8

abbrev pub swres : ℕ
swres = 128

abbrev pub enwt : ℕ
enwt = 32

abbrev pub txon : ℕ
txon = 8

abbrev pub rxon : ℕ
rxon = 4

abbrev pub xton : ℕ
xton = 1

abbrev pub ffclrrx : ℕ
ffclrrx = 2

abbrev pub ffclrtx : ℕ
ffclrtx = 1

abbrev pub lna_sw : ℕ
lna_sw = 8

abbrev pub enpacrx : ℕ
enpacrx = 128

abbrev pub enpactx : ℕ
enpactx = 8

abbrev pub encrc : ℕ
encrc = 4

abbrev pub dt_mask : ℕ
dt_mask = 31

abbrev pub vc_mask : ℕ
vc_mask = 31

-- `x & DT_MASK` and `x & VC_MASK`, for the mask of the low five bits.
abbrev pub low_bits : ℕ → ℕ → ℕ
low_bits x mask = x % (mask + 1)
