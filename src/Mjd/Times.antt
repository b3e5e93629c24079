-- ===== src/Mjd/Times.antt =====
-- The round trip of a time stamp through `time_t`.
use libpuppy.Base.{ℕ, ◌≤◌, ◌<◌, ◌≡◌, arith}
use libpuppy.Base.Int.{pos, ◌+ℤ◌, ◌-ℤ◌, u16_of}
use libpuppy.Mjd.{
  TfDatetime, Tm, Date, date_of_mjd, mjd_of_date, tm_of_tfdt, tfdt_to_time, time_to_tfdt,
}
use libpuppy.Mjd.Civil.{mjd_of_date-date_of_mjd}

-- One month less and one more.
month_again : (t : Date) (m : ℕ) → t.month ≡ pos m → 1 ≤ m → t.month -ℤ pos 1 +ℤ pos 1 ≡ t.month
month_again t m e h = rw e (ground arith)

-- A time stamp of the device from 1 March 1900 on, with 16 and 8 bit fields, survives the way
-- through `time_t`, where `localtime` gives back the calendar time that `mktime` was given.
pub time_to_tfdt-tfdt_to_time :
    {Time : Type 0} (mktime : Tm → Time) (localtime : Time → Tm) (dt : TfDatetime)
    → localtime (mktime (tm_of_tfdt dt)) ≡ tm_of_tfdt dt
    → 15079 ≤ dt.mjd
    → dt.mjd < 65536
    → dt.hour < 256
    → dt.minute < 256
    → dt.second < 256
    → time_to_tfdt localtime (tfdt_to_time mktime dt) ≡ dt
unfolding time_to_tfdt tfdt_to_time tm_of_tfdt
time_to_tfdt-tfdt_to_time mktime localtime dt law low high hour minute second =
    let c = mjd_of_date-date_of_mjd dt.mjd low in
    let same : u16_of (mjd_of_date (date_of_mjd dt.mjd)) ≡ dt.mjd = rw c.0 (omega arith) in
    rw (law, month_again (date_of_mjd dt.mjd) c.1 c.2 c.3) (ground (arith, same))
