-- ===== src/Sensor/Battery.antt =====
-- The battery voltage that examples/sensor/main.c posts.
use native.Mathlib.Nat.{div-mul-le_self, lt-div-mul-add, div-lt_iff_lt-mul, le-div_iff_mul-le}
use tinyhan.Base.{
  ℕ, ◌+◌, ◌*◌, ◌/◌, ◌%◌, ◌^◌, ◌<◌, ◌≤◌, ◌≡◌, refl, sym, ◌∙◌, ap, false, some, [], arith, ◌==◌,
}
use mathlib.Core.List.{append-nil}
use tinyhan.Base.Bytes.{le_bytes, read_le, read_le-le_bytes}
use tinyhan.Sensor.{vbatt_mv}

-- 1024 times the reference voltage in mV.
abbrev pub scaled_vref : ℕ
scaled_vref = 1126400

-- From a conversion of 18 on, the result is the quotient of 1024 times the reference voltage by the
-- conversion, rounded down, and the receiver reads it from the two bytes that are posted. A conversion
-- from 1 to 17 gives a quotient that 16 bits do not hold: the result is too small by at least 65536.
pub vbatt_mv-quotient :
    (adc : ℕ)
    → 1 ≤ adc
    → (mv : ℕ) × (vbatt_mv adc ≡ some mv)
      × (read_le 2 (le_bytes 2 mv) ≡ mv)
      × (18 ≤ adc → (mv * adc ≤ scaled_vref) × (scaled_vref < mv * adc + adc))
      × (adc < 18 → mv + 65536 ≤ scaled_vref / adc)
unfolding vbatt_mv
vbatt_mv-quotient adc h =
    let quotient = scaled_vref / adc in
    let some_quotient : (adc == 0) ≡ false = ground arith in
    let below : adc < 18 → 65536 ≤ quotient =
      λ k. (le-div_iff_mul-le {k = adc} {x = 65536} {y = scaled_vref} h).1 (omega (arith, k)) in
    let within : 18 ≤ adc → quotient < 65536 =
      λ k. (div-lt_iff_lt-mul {k = adc} {x = scaled_vref} {y = 65536} h).1 (omega (arith, k)) in
    let exact : 18 ≤ adc → quotient % 2 ^ 16 ≡ quotient = λ k. omega (arith, within k) in
    (
      quotient % 2 ^ 16,
      rw some_quotient refl,
      ap (read_le 2) (sym (append-nil (le_bytes 2 (quotient % 2 ^ 16))))
          ∙ read_le-le_bytes 2 (quotient % 2 ^ 16) [] (omega arith),
      λ k. rw (exact k) (div-mul-le_self scaled_vref adc, lt-div-mul-add h),
      λ k. omega (arith, below k),
    )

-- A conversion whose quotient fits.
pub vbatt_mv_fits :
    (adc : ℕ)
    → 18 ≤ adc
    → let mv = scaled_vref / adc in (vbatt_mv adc ≡ some mv) × (read_le 2 (le_bytes 2 mv) ≡ mv)
unfolding vbatt_mv
vbatt_mv_fits adc h =
    let mv = scaled_vref / adc in
    let some_quotient : (adc == 0) ≡ false = ground arith in
    let within : mv < 65536 =
      (div-lt_iff_lt-mul {k = adc} {x = scaled_vref} {y = 65536} (omega (arith, h))).1
        (omega (arith, h)) in
    let exact : mv % 2 ^ 16 ≡ mv = omega (arith, within) in
    (
      rw some_quotient (ap some exact),
      ap (read_le 2) (sym (append-nil (le_bytes 2 mv)))
          ∙ read_le-le_bytes 2 mv [] (omega (arith, within)),
    )
