-- ===== src/Statistics/Estimate.antt =====
-- What the progress line says, and where it is undefined.
use native.Mathlib.Nat.{div-lt_iff_lt-mul, le-div_iff_mul-le}
use libpuppy.Base.{
  Option, sym, ap, ◌∙◌, ℕ, suc, ◌+◌, ◌-◌, ◌*◌, ◌/◌, ◌^◌, ◌≤◌, ◌<◌, ◌≡◌, ◌⊎◌, ◌↔◌, refl, arith,
  false, inl, inr, some, none,
}
use libpuppy.Base.Int.{int_of, pos}
use libpuppy.Base.Memory.{u64}
use native.Mathlib.Decide.{dec_lt}
use libpuppy.Statistics.{
  Quotient, Clock, Progress, clock, progress_line, progress_stats, undefined, line, eta_of, rate_of,
  line_with, delta_of,
}

-- A clock that shows so many seconds.
pub record IsClock (c : Clock) (n : ℕ) : Type 0 where
  pub total : c.hours * 3600 + c.minutes * 60 + c.seconds ≡ n
  pub minutes : c.minutes < 60
  pub seconds : c.seconds < 60

clock-IsClock : (n : ℕ) → IsClock (clock n) n
unfolding clock
clock-IsClock n = record { total = omega arith; minutes = omega arith; seconds = omega arith }

division : (a b : ℕ) → 0 < b → (a / b * b ≤ a) × (a < suc (a / b) * b)
division a b h = omega arith

-- The seconds that a transfer has run.
elapsed-delta :
    (now start_time : ℕ)
    → start_time < now
    → now < start_time + 2 ^ 31
    → delta_of now start_time ≡ pos (suc (now - start_time - 1))
unfolding delta_of int_of
elapsed-delta now start_time later soon = ground arith

-- What the arithmetic of `double` guarantees: integers below 2 ^ 53 are exact, and so is the integer
-- part of their quotient; it is converted to `int` where that has it. A quotient by 0 is infinite or no
-- number.
pub record IsExact (quotient : Quotient) : Type 0 where
  pub finite :
      (n d : ℕ) → n < 2 ^ 53 → 0 < d → d < 2 ^ 53 → n / d < 2 ^ 31 → quotient n d ≡ some (n / d)
  pub large : (n d : ℕ) → n < 2 ^ 53 → 0 < d → d < 2 ^ 53 → 2 ^ 31 ≤ n / d → quotient n d ≡ none
  pub by_zero : (n : ℕ) → quotient n 0 ≡ none

module _ (quotient : Quotient) where
  -- The line of a transfer that has run for some seconds.
  line-progress_stats :
      (now start_time total bytes : ℕ)
      → start_time < now
      → now < start_time + 2 ^ 31
      → let delta = now - start_time in
        progress_stats quotient false now total bytes start_time
        ≡ line_with (eta_of quotient total bytes (bytes / delta)) total bytes delta
  unfolding progress_stats progress_line rate_of
  line-progress_stats now start_time total bytes later soon =
      ap (λ delta. progress_line quotient false delta total bytes)
        (elapsed-delta now start_time later soon)
      ∙ ap (λ delta. line_with (eta_of quotient total bytes (bytes / delta)) total bytes delta)
          {x = suc (now - start_time - 1)} (omega arith)

  module _ (exact : IsExact quotient) (total bytes rate : ℕ) (within : bytes ≤ total)
      (small : total < 2 ^ 53) (slower : rate ≤ bytes) where
    rest : u64 (total + 2 ^ 64 - bytes) ≡ total - bytes
    rest = omega arith

    -- Where the rate is not 0 and the seconds are those of an `int`, these are the estimate.
    eta_of-some :
        0 < rate
        → total - bytes < 2 ^ 31 * rate
        → eta_of quotient total bytes rate ≡ some ((total - bytes) / rate)
    unfolding eta_of
    eta_of-some h few =
        ap (λ n. quotient n rate) rest
        ∙ exact.finite (total - bytes) rate (omega arith) h (omega arith)
            ((div-lt_iff_lt-mul h).1 few)

    eta_of-none :
        (eta_of quotient total bytes rate ≡ none) ↔ ((rate ≡ 0) ⊎ (2 ^ 31 * rate ≤ total - bytes))
    unfolding eta_of
    eta_of-none = elim (dec_lt 0 rate) [
      | no stalled ↦
          let zero_rate : rate ≡ 0 = omega arith in
          (λ h. inl zero_rate, λ h. ap (quotient _) zero_rate ∙ exact.by_zero _)
      | yes moving ↦ elim (dec_lt (total - bytes) (2 ^ 31 * rate)) [
        | yes few ↦ (
          λ h. absurd (some-none (sym (eta_of-some moving few) ∙ h)),
          λ h. elim h [ inl z ↦ absurd (omega arith) | inr k ↦ absurd (omega (arith, k)) ],
        )
        | no many ↦ (
          λ h. inr (omega arith),
          λ h.
              ap (λ n. quotient n rate) rest
              ∙ exact.large (total - bytes) rate (omega arith) moving (omega arith)
                  ((le-div_iff_mul-le moving).1 (omega arith)),
        )
      ]
    ]
      where
        some-none : {n : ℕ} → ◌≡◌ {A = Option ℕ} (some n) none → ⊥
        some-none h = cc

  -- On a machine whose `double` is exact for integers below 2 ^ 53, a transfer of fewer than 2 ^ 53
  -- bytes that has run for 1 to 2 ^ 31 - 1 seconds and is not quiet, with a byte a second at least, no
  -- more bytes than the total, and a rest that takes less than 2 ^ 31 seconds at the whole number of
  -- bytes a second so far: the line shows the time that it ran and the whole seconds that the rest
  -- takes at that rate, both with minutes and seconds below 60.
  pub progress_stats-estimate :
      (exact : IsExact quotient) (now start_time total bytes : ℕ)
      → start_time < now
      → now < start_time + 2 ^ 31
      → total < 2 ^ 53
      → now ≤ start_time + bytes
      → bytes ≤ total
      → total - bytes < 2 ^ 31 * (bytes / (now - start_time))
      → let rate = bytes / (now - start_time) in
        (shown : Progress) × (progress_stats quotient false now total bytes start_time ≡ line shown)
        × IsClock shown.elapsed (now - start_time)
        × (eta : ℕ) × IsClock shown.remaining eta
        × (eta * rate ≤ total - bytes)
        × (total - bytes < suc eta * rate)
  unfolding line_with
  progress_stats-estimate exact now start_time total bytes later soon small fast within finite =
      let delta = now - start_time in
      let rate = bytes / delta in
      let moving : 0 < rate = omega arith in
      let eta = (total - bytes) / rate in
      (
        _,
        line-progress_stats now start_time total bytes later soon
            ∙ ap (λ e. line_with e total bytes delta)
                (eta_of-some exact total bytes rate within small (omega arith) moving finite),
        clock-IsClock delta,
        eta,
        clock-IsClock eta,
        (division (total - bytes) rate moving).0,
        (division (total - bytes) rate moving).1,
      )

  line_with-Undefined :
      (eta : Option ℕ) (total bytes delta : ℕ)
      → (line_with eta total bytes delta ≡ undefined) ↔ (eta ≡ none)
  unfolding line_with
  line_with-Undefined none total bytes delta = (λ h. refl, λ h. refl)
  line_with-Undefined (some eta) total bytes delta = (λ h. cc, λ h. cc)

  -- On a machine whose `double` is exact for integers below 2 ^ 53, for a transfer of fewer than 2 ^ 53
  -- bytes that has run for 1 to 2 ^ 31 - 1 seconds, is not quiet and has brought no more bytes than
  -- the total: the estimate is undefined exactly where it brought less than a byte a second, or where
  -- the rest is 2 ^ 31 times the whole number of bytes a second or more.
  pub progress_stats-Undefined :
      (exact : IsExact quotient) (now start_time total bytes : ℕ)
      → start_time < now
      → now < start_time + 2 ^ 31
      → total < 2 ^ 53
      → bytes ≤ total
      → let rate = bytes / (now - start_time) in
        (progress_stats quotient false now total bytes start_time ≡ undefined)
        ↔ ((bytes < now - start_time) ⊎ (2 ^ 31 * rate ≤ total - bytes))
  progress_stats-Undefined exact now start_time total bytes later soon small within =
      let delta = now - start_time in
      let rate = bytes / delta in
      let shown = line-progress_stats now start_time total bytes later soon in
      let undefined_iff =
        line_with-Undefined (eta_of quotient total bytes rate) total bytes delta in
      let none_iff = eta_of-none exact total bytes rate within small (omega arith) in
      let below_one : (rate < 1) ↔ (bytes < 1 * delta) = div-lt_iff_lt-mul (omega arith) in
      let slow : (rate ≡ 0) ↔ (bytes < delta) = (
        λ h. omega (arith, below_one.0 (omega arith)),
        λ h. omega (arith, below_one.1 (omega arith)),
      ) in
      (
        λ h. elim (none_iff.0 (undefined_iff.0 (sym shown ∙ h))) [
          | inl z ↦ inl (slow.0 z)
          | inr long ↦ inr long
        ],
        λ h.
            shown
            ∙ undefined_iff.1
                (none_iff.1 (elim h [ inl few ↦ inl (slow.1 few) | inr long ↦ inr long ])),
      )
