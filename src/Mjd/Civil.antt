-- ===== src/Mjd/Civil.antt =====
-- The two conversions of dates are inverse.
use libpuppy.Base.{
  ℕ, ◌+◌, ◌-◌, ◌*◌, ◌/◌, ◌≤◌, ◌<◌, ◌≡◌, refl, arith, if◌then◌else◌, ◌||◌, ◌==◌, ◌∙◌, ap,
}
use libpuppy.Base.Int.{pos, sub_ℕ-pos, ◌-ℤ◌}
use libpuppy.Mjd.{Date, year_index, month_index, day_index, date_of_mjd, mjd_sum, mjd_of_date}

-- The year, the month index and the day that the formulas give, where all is positive.
abbrev years : ℕ → ℕ
years n = (n * 100 - 1507820) / 36525

abbrev months : ℕ → ℕ
months n = ((n - years n * 36525 / 100) * 10000 - 149561000) / 306001

abbrev carry : ℕ → ℕ
carry m = if m == 14 || m == 15 then 1 else 0

abbrev natural_date : ℕ → ℕ → ℕ → Date
natural_date n y m = record {
  year = pos (y + carry m);
  month = pos (m - 1 - carry m * 12);
  day = pos (n - 14956 - y * 36525 / 100 - m * 306001 / 10000);
}

months_bounds : (n : ℕ) → 15079 ≤ n → (4 ≤ months n) × (months n ≤ 15)
months_bounds n h = omega arith

year_index-years : (n : ℕ) → 15079 ≤ n → year_index n ≡ pos (years n)
unfolding year_index
year_index-years n h = ground arith

month_index-months : (n : ℕ) → 15079 ≤ n → month_index n (pos (years n)) ≡ pos (months n)
unfolding month_index
month_index-months n h = rw (sub_ℕ-pos n (years n * 36525 / 100) (omega arith)) (
    rw (sub_ℕ-pos ((n - years n * 36525 / 100) * 10000 / 1) 149561000 (omega arith))
      (ap pos (omega arith)))

day_index-pos :
    (n y m : ℕ)
    → 14956 + y * 36525 / 100 + m * 306001 / 10000 ≤ n
    → day_index n (pos y) (pos m) ≡ pos (n - 14956 - y * 36525 / 100 - m * 306001 / 10000)
unfolding day_index
day_index-pos n y m h = ground arith

mjd_sum-pos :
    (y m d k : ℕ)
    → k ≤ y
    → mjd_sum (pos y) (pos m) (pos d) k
      ≡ pos (14956 + d + (y - k) * 36525 / 100 + (m + 1 + k * 12) * 306001 / 10000)
unfolding mjd_sum
mjd_sum-pos y m d k h = ground arith

day_fits :
    (n : ℕ)
    → 15079 ≤ n
    → (14956 + years n * 36525 / 100 + months n * 306001 / 10000 < n)
      × (n ≤ 14956 + years n * 36525 / 100 + months n * 306001 / 10000 + 31)
day_fits n h = omega arith

-- The month that the index stands for.
month_of-index : (m : ℕ) → 4 ≤ m → pos m -ℤ pos 1 -ℤ pos (carry m * 12) ≡ pos (m - 1 - carry m * 12)
month_of-index m h = ground arith

date_of_mjd-natural : (n : ℕ) → 15079 ≤ n → date_of_mjd n ≡ natural_date n (years n) (months n)
unfolding date_of_mjd
date_of_mjd-natural n h =
    let (low, high) = months_bounds n h in
    let (first, last) = day_fits n h in
    rw (year_index-years n h, month_index-months n h)
      (ground
        (arith, day_index-pos n (years n) (months n) (omega arith), month_of-index (months n) low))

-- January and February are recognised where they were carried.
carry_back :
    (m : ℕ)
    → 4 ≤ m
    → m ≤ 15
    → (if m - 1 - carry m * 12 == 1 || m - 1 - carry m * 12 == 2 then 1 else 0) ≡ carry m
carry_back m low high = ground arith

sum_back :
    (n y m c : ℕ)
    → 1 + c * 12 ≤ m
    → 14956 + y * 36525 / 100 + m * 306001 / 10000 ≤ n
    → mjd_sum
        (pos (y + c))
        (pos (m - 1 - c * 12))
        (pos (n - 14956 - y * 36525 / 100 - m * 306001 / 10000))
        c
      ≡ pos n
sum_back n y m c low fits =
    mjd_sum-pos (y + c) (m - 1 - c * 12) (n - 14956 - y * 36525 / 100 - m * 306001 / 10000) c
      (omega arith)
    ∙ ap pos (omega arith)

-- On naturals the sum is the date again.
natural_sum :
    (n y m : ℕ)
    → 4 ≤ m
    → m ≤ 15
    → 14956 + y * 36525 / 100 + m * 306001 / 10000 ≤ n
    → mjd_of_date (natural_date n y m) ≡ pos n
unfolding mjd_of_date
natural_sum n y m low high fits =
    rw (carry_back m low high) (sum_back n y m (carry m) (ground arith) fits)

-- From MJD 15079, which is 1 March 1900, on: `time_to_tfdt` gives back the date that
-- `tfdt_to_time` decodes, and that date has a month from 1 to 12 and a day from 1 to 31.
pub mjd_of_date-date_of_mjd :
    (n : ℕ)
    → 15079 ≤ n
    → (mjd_of_date (date_of_mjd n) ≡ pos n)
      × (month : ℕ) × ((date_of_mjd n).month ≡ pos month)
      × (1 ≤ month)
      × (month ≤ 12)
      × (day : ℕ) × ((date_of_mjd n).day ≡ pos day)
      × (1 ≤ day)
      × (day ≤ 31)
mjd_of_date-date_of_mjd n h =
    let (low, high) = months_bounds n h in
    let (first, last) = day_fits n h in
    let y = years n in
    let m = months n in
    rw (date_of_mjd-natural n h) (
      natural_sum n y m low high (omega arith),
      m - 1 - carry m * 12,
      refl,
      ground arith,
      ground arith,
      n - 14956 - y * 36525 / 100 - m * 306001 / 10000,
      refl,
      omega arith,
      omega arith,
    )
