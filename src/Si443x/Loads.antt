-- ===== src/Si443x/Loads.antt =====
-- The loader of lib/phy-si443x.c against the writes that its table stands for.
use tinyhan.Base.{
  ℕ, ◌+◌, ◌%◌, ◌<◌, ◌≡◌, ◌≢◌, refl, ◌∙◌, false, List, [], ◌∷◌, ◌++◌, ◌==◌, length, arith,
}
use tinyhan.Si443x.Regs.{
  r_gpio0_cfg, r_data_access_ctrl, enpacrx, enpactx, encrc, r_tx_fifo_ctrl1, r_header_ctrl1,
  r_tx_power, r_channel, r_if_bandwidth, r_afc_limiter,
}
use tinyhan.Si443x.Radio.{Driver, deselect, io, act, write_bytes, si433x_write}
use tinyhan.Si443x.Config.{
  group, place_in, open_write, end_block, load, device_init, phy_si443x_config,
}

-- Consecutive registers and their values, as a group of the table, with the terminator at the end.
abbrev pub encode : List (ℕ × List ℕ) → List ℕ
encode [] = 0 ∷ []
encode ((a, bs) ∷ blocks) = a ∷ (length bs ∷ (bs ++ encode blocks))

-- The same blocks, as register writes.
abbrev pub write_all : Driver → List (ℕ × List ℕ) → Driver
write_all d [] = d
write_all d ((a, bs) ∷ blocks) = write_all (si433x_write d a bs) blocks

-- The addresses are below 128, and not 0, which ends the table.
abbrev pub AreAddresses : List (ℕ × List ℕ) → Type 0
AreAddresses [] = Unit
AreAddresses ((a, bs) ∷ blocks) = (a ≢ 0) × (a < 128) × AreAddresses blocks

load-values :
    (bs table : List ℕ) (d : Driver)
    → load (end_block d (length bs)) (place_in (length bs)) (bs ++ table)
      ≡ load (act (write_bytes d bs) deselect) group table
unfolding load write_bytes
load-values [] table d = refl
load-values (b ∷ bs) table d = load-values bs table (act d (io b))

load-block :
    (a : ℕ) (bs table : List ℕ) (d : Driver)
    → a ≢ 0
    → a < 128
    → load d group (a ∷ (length bs ∷ (bs ++ table))) ≡ load (si433x_write d a bs) group table
unfolding load si433x_write
load-block a bs table d nz lt =
    let small : a % 128 ≡ a = omega arith in
    let test : (a == 0) ≡ false = ground arith in
    rw (test, small) (load-values bs table (open_write d a))

-- The loader, on any table of groups with its terminator, where every address is below 128 and not 0,
-- performs exactly the register write of every group, in order.
pub load-encode :
    (blocks : List (ℕ × List ℕ)) (d : Driver)
    → AreAddresses blocks
    → load d group (encode blocks) ≡ write_all d blocks
unfolding load
load-encode [] d h = refl
load-encode ((a, bs) ∷ blocks) d (nz, lt, h) =
    load-block a bs (encode blocks) d nz lt ∙ load-encode blocks (si433x_write d a bs) h

-- The groups of the radio's configuration.
abbrev pub config_blocks : List (ℕ × List ℕ)
config_blocks =
    (r_gpio0_cfg, 21 ∷ 18 ∷ 0 ∷ [])
    ∷ (r_data_access_ctrl, (enpacrx + enpactx + encrc) ∷ [])
    ∷ (r_tx_fifo_ctrl1, 58 ∷ 32 ∷ 31 ∷ [])
    ∷ (r_header_ctrl1, 0 ∷ 2 ∷ 8 ∷ 16 ∷ 0x2d ∷ 0xd2 ∷ 0 ∷ 0 ∷ [])
    ∷ (r_tx_power, 8 ∷ 0x0c ∷ 0xcc ∷ 0 ∷ 0x23 ∷ 40 ∷ 0 ∷ 0 ∷ 0x73 ∷ 100 ∷ 0 ∷ [])
    ∷ (r_channel, 100 ∷ 1 ∷ [])
    ∷ (r_if_bandwidth, 0x05 ∷ 0x40 ∷ 0x0a ∷ 0x03 ∷ 0x50 ∷ 0x01 ∷ 0x99 ∷ 0x9a ∷ 0x06 ∷ 0x68 ∷ [])
    ∷ (r_afc_limiter, 0x28 ∷ 0x00 ∷ 0x28 ∷ 0x19 ∷ 0x29 ∷ [])
    ∷ []

-- The table in the source is these groups.
config_lem : phy_si443x_config ≡ encode config_blocks
unfolding phy_si443x_config
config_lem = refl

pub config_blocks-AreAddresses : AreAddresses config_blocks
config_blocks-AreAddresses = (
  omega arith,
  omega arith,
  (
    omega arith,
    omega arith,
    (
      omega arith,
      omega arith,
      (
        omega arith,
        omega arith,
        (
          omega arith,
          omega arith,
          (omega arith, omega arith, (omega arith, omega arith, (omega arith, omega arith, tt))),
        ),
      ),
    ),
  ),
)

-- `si443x_device_init` writes the registers of these groups.
pub device_init_lem : (d : Driver) → device_init d ≡ write_all d config_blocks
unfolding device_init phy_si443x_config
device_init_lem d = load-encode config_blocks d config_blocks-AreAddresses
