-- ===== src/Mjd.antt =====
-- mjd.c: the date format of the device, Modified Julian Dates as in ETSI EN 300 468.
--
-- The source computes with `double`. Its quotients are of integers by 365.25 or 30.6001 with
-- offsets in tenths, and at no `mjd` of 16 bits is the exact quotient within 1 / 400000 of an
-- integer other than the exact 0 of `0 * 30.6001`, far above the rounding of a `double`; so the
-- integer parts are those of the exact quotients, which are written here as scaled integers.
pub mod Civil
pub mod Times
use libpuppy.Base.{ℕ, ◌*◌, ◌||◌, if◌then◌else◌}
use libpuppy.Base.Int.{ℤ, pos, ◌+ℤ◌, ◌-ℤ◌, scaled, is_int, u16_of}
use libpuppy.Base.Memory.{u8}

-- `struct tf_datetime`
pub record TfDatetime : Type 0 where
  pub mjd : ℕ
  pub hour : ℕ
  pub minute : ℕ
  pub second : ℕ

-- The fields of `struct tm` that are set to more than a constant.
pub record Tm : Type 0 where
  pub tm_sec : ℕ
  pub tm_min : ℕ
  pub tm_hour : ℕ
  pub tm_mday : ℤ
  pub tm_mon : ℤ
  pub tm_year : ℤ

-- Years since 1900, months from 1, days from 1.
pub record Date : Type 0 where
  pub year : ℤ
  pub month : ℤ
  pub day : ℤ

-- `(int) ((mjd - 15078.2) / 365.25)`
unfoldable pub year_index : ℕ → ℤ
year_index mjd = scaled (scaled (pos mjd) 100 1 -ℤ pos 1507820) 1 36525

-- `(int) ((mjd - 14956.1 - ((int) (y * 365.25))) / 30.6001)`
unfoldable pub month_index : ℕ → ℤ → ℤ
month_index mjd y =
    scaled (scaled (pos mjd -ℤ scaled y 36525 100) 10000 1 -ℤ pos 149561000) 1 306001

-- `mjd - 14956 - ((int) (y * 365.25)) - ((int) (m * 30.6001))`
unfoldable pub day_index : ℕ → ℤ → ℤ → ℤ
day_index mjd y m = pos mjd -ℤ pos 14956 -ℤ scaled y 36525 100 -ℤ scaled m 306001 10000

-- The date arithmetic of `tfdt_to_time`.
unfoldable pub date_of_mjd : ℕ → Date
unfolding year_index month_index day_index
date_of_mjd mjd =
    let y = year_index mjd in
    let m = month_index mjd y in
    let k : ℕ = if is_int m 14 || is_int m 15 then 1 else 0 in
    record { year = y +ℤ pos k; month = m -ℤ pos 1 -ℤ pos (k * 12); day = day_index mjd y m }

-- `14956 + d + ((int) ((y - k) * 365.25)) + ((int) ((m + 1 + k * 12) * 30.6001))`
unfoldable pub mjd_sum : ℤ → ℤ → ℤ → ℕ → ℤ
mjd_sum y m d k =
    pos 14956
    +ℤ d
    +ℤ scaled (y -ℤ pos k) 36525 100
    +ℤ scaled (m +ℤ pos 1 +ℤ pos (k * 12)) 306001 10000

-- The date arithmetic of `time_to_tfdt`.
unfoldable pub mjd_of_date : Date → ℤ
unfolding mjd_sum
mjd_of_date t =
    let k : ℕ = if is_int t.month 1 || is_int t.month 2 then 1 else 0 in
    mjd_sum t.year t.month t.day k

-- The `struct tm` that `tfdt_to_time` fills in; `tm_isdst` is -1.
unfoldable pub tm_of_tfdt : TfDatetime → Tm
tm_of_tfdt dt =
    let t = date_of_mjd dt.mjd in
    record {
      tm_sec = dt.second;
      tm_min = dt.minute;
      tm_hour = dt.hour;
      tm_mday = t.day;
      tm_mon = t.month -ℤ pos 1;
      tm_year = t.year;
    }

-- `mktime` and `localtime` belong to the C library, which also knows the time zone.
module _ {Time : Type 0} where
  unfoldable pub tfdt_to_time : (Tm → Time) → TfDatetime → Time
  tfdt_to_time mktime dt = mktime (tm_of_tfdt dt)

  unfoldable pub time_to_tfdt : (Time → Tm) → Time → TfDatetime
  time_to_tfdt localtime t =
      let tm = localtime t in
      let date : Date = record {
        year = tm.tm_year;
        month = tm.tm_mon +ℤ pos 1;
        day = tm.tm_mday;
      } in
      record {
        mjd = u16_of (mjd_of_date date);
        hour = u8 tm.tm_hour;
        minute = u8 tm.tm_min;
        second = u8 tm.tm_sec;
      }
