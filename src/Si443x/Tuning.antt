-- ===== src/Si443x/Tuning.antt =====
-- The scaling macros of lib/si443x_regs.h against the physical values that they stand for.
use tinyhan.Base.{
  ap, ℕ, zero, suc, ◌+◌, ◌-◌, ◌*◌, ◌/◌, ◌%◌, ◌^◌, ◌<◌, ◌≤◌, ◌≡◌, refl, ◌∙◌, arith, bit_or, leb,
  if◌then◌else◌, Bool-cases, inl, inr,
}
use tinyhan.Base.Int.{ℤ, pos}
use tinyhan.Si443x.Regs.{r_tx_power, lna_sw}
use tinyhan.Si443x.Regs.Scale.{neg, above_floor, txpow_of, txpow, txdbm, band, fc}
use tinyhan.Si443x.Radio.{Driver, write8}
use tinyhan.Si443x.Driver.{wake_up_period, phy_set_power}

-- For every carrier of the high band the band fits its five bits and the fraction its two registers,
-- and the carrier that the radio makes of them, in steps of 312.5 Hz, is the requested one or less
-- than one step below.
pub fc-band :
    (hz : ℕ)
    → 480000000 ≤ hz
    → hz < 960000000
    → (band hz < 24)
      × (fc hz < 2 ^ 16)
      × ((480000000 + 20000000 * band hz) * 64 + fc hz * 20000 ≤ hz * 64)
      × (hz * 64 < (480000000 + 20000000 * band hz) * 64 + (fc hz + 1) * 20000)
unfolding fc band
fc-band hz lo hi = (omega arith, omega arith, omega arith, omega arith)

-- Any delay in microseconds that the 16-bit argument holds fits the timer's two period registers, and
-- the programmed period, in units of 4/32768 s, is the delay or less than one unit below.
pub wake_up_period-bounds :
    (us : ℕ)
    → us < 2 ^ 16
    → (wake_up_period us < 2 ^ 16)
      × (wake_up_period us * 4000000 ≤ us * 32768)
      × (us * 32768 < (wake_up_period us + 1) * 4000000)
unfolding wake_up_period
wake_up_period-bounds us h = (omega arith, omega arith, omega arith)

-- `n` dB above the lowest power, in dBm.
abbrev pub dbm_at : ℕ → ℤ
dbm_at n = if leb 8 n then pos (n - 8) else neg (8 - n)

neg-floor : (m : ℕ) → m ≤ 8 → above_floor (neg m) ≡ pos (8 - m)
neg-floor zero h = refl
neg-floor (suc m) h = ground arith

floor-dbm_at : (n : ℕ) → above_floor (dbm_at n) ≡ pos n
floor-dbm_at n = elim (Bool-cases (leb 8 n)) [
  | inl p ↦ let e : n - 8 + 8 ≡ n = ground arith in rw p (ap (λ k. pos k) e)
  | inr p ↦
      let e : 8 - (8 - n) ≡ n = ground arith in
      rw p (neg-floor (8 - n) (omega arith) ∙ ap (λ k. pos k) e)
]

txpow-dbm_at : (n : ℕ) → txpow (dbm_at n) ≡ n / 3 % 8
unfolding txpow txpow_of
txpow-dbm_at n = rw (floor-dbm_at n) refl

txdbm-dbm_at : (k : ℕ) → txdbm k ≡ dbm_at (k % 8 * 3)
unfolding txdbm
txdbm-dbm_at k = refl

-- From the lowest power on, -8 dBm, `phy_set_power` writes the number of whole steps of 3 dB above it,
-- modulo 8, with the switch of the low-noise amplifier, and returns the power of these steps. With the
-- distance from the lowest power taken modulo 24 dB, that is the requested power or less than one step
-- below.
pub phy_set_power-dbm_at :
    (n : ℕ) (d : Driver)
    → (phy_set_power d (dbm_at n)
        ≡ (write8 d r_tx_power (bit_or (n / 3 % 8) lna_sw), dbm_at (n / 3 % 8 * 3)))
      × (n / 3 % 8 * 3 ≤ n % 24)
      × (n % 24 < n / 3 % 8 * 3 + 3)
unfolding phy_set_power
phy_set_power-dbm_at n d =
    let twice : n / 3 % 8 % 8 * 3 ≡ n / 3 % 8 * 3 = omega arith in
    (rw (txpow-dbm_at n, txdbm-dbm_at, twice) refl, omega arith, omega arith)
