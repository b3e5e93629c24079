-- ===== src/Statistics.antt =====
-- `progressStats` and `finalStats` of libpuppy.c. The values of type `double` that are printed
-- stand as fractions, without their digits. The one that is converted to `int` is the machine's: its
-- arithmetic is a parameter.
pub mod Estimate
use libpuppy.Base.{
  ℕ, suc, ◌+◌, ◌-◌, ◌*◌, ◌/◌, ◌%◌, ◌^◌, Bool, true, false, ltb, ◌==◌, if◌then◌else◌, Option, none,
  some,
}
use libpuppy.Base.Int.{ℤ, pos, negsuc, sub_ℕ, int_of}
use libpuppy.Base.Memory.{u64}

-- A value of type `double`; where the denominator is 0 it is infinite or no number.
pub record Ratio : Type 0 where
  pub numerator : ℕ
  pub denominator : ℕ

-- What `%02d:%02d:%02d` prints.
pub record Clock : Type 0 where
  pub hours : ℕ
  pub minutes : ℕ
  pub seconds : ℕ

unfoldable pub clock : ℕ → Clock
clock n = record { hours = n / (60 * 60); minutes = n / 60 % 60; seconds = n % 60 }

pub record Progress : Type 0 where
  pub percent : Ratio
  pub megabits : Ratio
  pub elapsed : Clock
  pub remaining : Clock

-- `undefined` is where `eta` is the conversion of a value that no `int` has.
pub data ProgressLine : Type 0 where
  no_line undefined : ProgressLine
  line : Progress → ProgressLine

-- The quotient of two integers of 64 bits, each converted to `double`, as an `int`; `none` where that is
-- undefined, since no `int` has the value.
abbrev pub Quotient : Type 0
Quotient = ℕ → ℕ → Option ℕ

-- `int delta = time(NULL) - startTime;`
unfoldable pub delta_of : ℕ → ℕ → ℤ
delta_of now start_time = int_of (sub_ℕ now start_time)

-- `double rate = bytes / delta;`, a division of integers.
unfoldable pub rate_of : ℕ → ℕ → ℕ
rate_of bytes delta = bytes / delta

-- `int eta = (totalSize - bytes) / rate;`, where the subtraction is one of 64 bits.
unfoldable pub eta_of : Quotient → ℕ → ℕ → ℕ → Option ℕ
eta_of quotient total_size bytes rate = quotient (u64 (total_size + 2 ^ 64 - bytes)) rate

-- `((bytes * 8.0) / delta) / (1000 * 1000)`
abbrev pub megabits_of : ℕ → ℕ → Ratio
megabits_of bytes delta = record { numerator = bytes * 8; denominator = delta * (1000 * 1000) }

-- The line, by `eta`.
unfoldable pub line_with : Option ℕ → ℕ → ℕ → ℕ → ProgressLine
unfolding clock
line_with none total_size bytes delta = undefined
line_with (some eta) total_size bytes delta = line (record {
  percent = record { numerator = 100 * bytes; denominator = total_size };
  megabits = megabits_of bytes delta;
  elapsed = clock delta;
  remaining = clock eta;
})

-- By `quiet` and `delta`.
unfoldable pub progress_line : Quotient → Bool → ℤ → ℕ → ℕ → ProgressLine
unfolding line_with eta_of rate_of
progress_line quotient false (pos (suc d)) total_size bytes =
    line_with (eta_of quotient total_size bytes (rate_of bytes (suc d))) total_size bytes (suc d)
progress_line quotient _ _ total_size bytes = no_line

unfoldable pub progress_stats : Quotient → Bool → ℕ → ℕ → ℕ → ℕ → ProgressLine
unfolding progress_line delta_of
progress_stats quotient quiet now total_size bytes start_time =
    progress_line quotient quiet (delta_of now start_time) total_size bytes

pub record Final : Type 0 where
  pub megabytes : Ratio
  pub duration : Clock
  pub average : Ratio

unfoldable pub final_line : Bool → ℤ → ℕ → Option Final
unfolding clock
final_line false (pos (suc d)) bytes = some (record {
  megabytes = record { numerator = bytes; denominator = 1000 * 1000 };
  duration = clock (suc d);
  average = megabits_of bytes (suc d);
})
final_line _ _ bytes = none

unfoldable pub final_stats : Bool → ℕ → ℕ → ℕ → Option Final
unfolding final_line delta_of
final_stats quiet now bytes start_time = final_line quiet (delta_of now start_time) bytes
