-- ===== src/PuppyProgram/Statistics.antt =====
-- `progressStats` and `finalStats` of puppy.c, which has the functions of libpuppy.c once more.
use libpuppy.Base.{ℕ, Bool, Option}
use libpuppy.Statistics
use libpuppy.Statistics.{Quotient, ProgressLine, Final}

abbrev pub progress_stats : Quotient → Bool → ℕ → ℕ → ℕ → ℕ → ProgressLine
progress_stats = libpuppy.Statistics.progress_stats

abbrev pub final_stats : Bool → ℕ → ℕ → ℕ → Option Final
final_stats = libpuppy.Statistics.final_stats
