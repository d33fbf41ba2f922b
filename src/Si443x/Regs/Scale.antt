-- ===== src/Si443x/Regs/Scale.antt =====
-- The scaling macros of lib/si443x_regs.h, for the high band and without SI4432.
use tinyhan.Base.{ℕ, ◌+◌, ◌-◌, ◌*◌, ◌/◌, ◌%◌, zero, suc, leb, if◌then◌else◌, bit_or}
use tinyhan.Base.Int.{ℤ, pos, negsuc}

-- `-(n)`, and C's division of a signed number, which goes towards 0.
abbrev pub neg : ℕ → ℤ
neg zero = pos 0
neg (suc n) = negsuc n

-- `RSSI_DBM`
unfoldable pub rssi_dbm : ℕ → ℤ
rssi_dbm r = if leb 241 r then pos ((r - 241) * 100 / 191) else neg ((241 - r) * 100 / 191)

-- `-TXPOW_MIN`, without SI4432.
abbrev pub txpow_floor : ℕ
txpow_floor = 8

abbrev pub txpow_max : ℕ
txpow_max = 13

abbrev pub txpow_step : ℕ
txpow_step = 3

-- `dbm - TXPOW_MIN`
abbrev pub above_floor : ℤ → ℤ
above_floor (pos n) = pos (n + txpow_floor)
above_floor (negsuc n) =
    if leb (suc n) txpow_floor then pos (txpow_floor - suc n) else neg (suc n - txpow_floor)

unfoldable pub txpow_of : ℤ → ℕ
txpow_of (pos n) = n / txpow_step % 8
txpow_of (negsuc n) = (8 - suc n / txpow_step % 8) % 8

-- `TXPOW`: the steps above the lowest power, in three bits of a two's complement number.
unfoldable pub txpow : ℤ → ℕ
unfolding txpow_of
txpow dbm = txpow_of (above_floor dbm)

-- `TXDBM`
unfoldable pub txdbm : ℕ → ℤ
txdbm p =
    let up = p % 8 * txpow_step in
    if leb txpow_floor up then pos (up - txpow_floor) else neg (txpow_floor - up)

-- `TXDR_HIGH`, `FD`, `_BAND`, `FB` and `FC`, in Hz and bits a second.
unfoldable pub txdr_high : ℕ → ℕ
txdr_high bps = bps * 65536 / 1000000

unfoldable pub fd : ℕ → ℕ
fd deviation_hz = deviation_hz / 625

abbrev pub band_offset : ℕ
band_offset = 480000000

abbrev pub band_step : ℕ
band_step = 20000000

unfoldable pub band : ℕ → ℕ
band ch0_hz = (ch0_hz - band_offset) / band_step % 32

unfoldable pub fb : ℕ → ℕ
unfolding band
fb ch0_hz = bit_or 0x60 (band ch0_hz)

unfoldable pub fc : ℕ → ℕ
unfolding band
fc ch0_hz = (ch0_hz - (band_offset + band_step * band ch0_hz)) * 64 / (band_step / 1000)
