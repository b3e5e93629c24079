-- ===== src/Tests/Codec.antt =====
-- The byte, CRC, calendar and swap functions on concrete data.
use libpuppy.Base.{ℕ, ◌^◌, ◌≤◌, ◌<◌, ◌≡◌, refl, arith, List, [], ◌∷◌}
use libpuppy.Base.Memory.{Memory, IsBytes, read_range, write_range, write_range-IsBytes}
use libpuppy.Base.Int.{pos}
use libpuppy.Bytes.{put_u16}
use libpuppy.Crc16.{crc16_ansi}
use libpuppy.Crc16.Reference.{reference_crc}
use libpuppy.Crc16.Agree.{crc16_ansi-reference_crc}
use libpuppy.Mjd.{TfDatetime, Tm, date_of_mjd, mjd_of_date, tfdt_to_time, time_to_tfdt}
use libpuppy.Mjd.Civil.{mjd_of_date-date_of_mjd}
use libpuppy.Mjd.Times.{time_to_tfdt-tfdt_to_time}
use libpuppy.Packet.{length_at}

abbrev pub blank : Memory
blank i = 0

pub blank-IsBytes : IsBytes blank
blank-IsBytes i = omega arith

-- The check string "123456789".
abbrev digits : List ℕ
digits = 49 ∷ 50 ∷ 51 ∷ 52 ∷ 53 ∷ 54 ∷ 55 ∷ 56 ∷ 57 ∷ []

abbrev digits_memory : Memory
digits_memory = write_range blank 4 digits

digits_memory-IsBytes : IsBytes digits_memory
digits_memory-IsBytes = write_range-IsBytes 4 digits (ground arith) blank-IsBytes

-- The CRC of the check string is 0xbb3d.
digits_crc : crc16_ansi digits_memory 4 9 ≡ 0xbb3d
unfolding crc16_ansi
digits_crc = refl

crc16_ansi-reference_crc_example :
    (crc16_ansi digits_memory 4 9 ≡ reference_crc 0 (read_range digits_memory 4 9))
    × (crc16_ansi digits_memory 4 9 < 2 ^ 16)
crc16_ansi-reference_crc_example = crc16_ansi-reference_crc digits_memory 4 9 digits_memory-IsBytes

-- 29 February 2004.
abbrev pub leap_day : TfDatetime
leap_day = record { mjd = 53064; hour = 12; minute = 30; second = 59 }

leap_day_date : date_of_mjd 53064 ≡ record { year = pos 104; month = pos 2; day = pos 29 }
unfolding date_of_mjd
leap_day_date = refl

mjd_of_date-date_of_mjd_example :
    (mjd_of_date (date_of_mjd 53064) ≡ pos 53064)
    × (month : ℕ) × ((date_of_mjd 53064).month ≡ pos month)
    × (1 ≤ month)
    × (month ≤ 12)
    × (day : ℕ) × ((date_of_mjd 53064).day ≡ pos day)
    × (1 ≤ day)
    × (day ≤ 31)
mjd_of_date-date_of_mjd_example = mjd_of_date-date_of_mjd 53064 (omega arith)

-- A calendar that keeps the broken-down time as it is.
abbrev same_time : Tm → Tm
same_time t = t

time_to_tfdt-tfdt_to_time_example :
    time_to_tfdt same_time (tfdt_to_time same_time leap_day) ≡ leap_day
time_to_tfdt-tfdt_to_time_example =
    time_to_tfdt-tfdt_to_time same_time same_time leap_day refl (omega arith) (omega arith)
      (omega arith) (omega arith) (omega arith)

-- A packet of 13 bytes.
abbrev small_packet : Memory
small_packet = put_u16 digits_memory length_at 13
