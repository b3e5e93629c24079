-- ===== src/Crc16.antt =====
-- crc16.c: the CRC-16 of a byte range, driven by a table of 256 entries.
mod Table
pub mod Reference
pub mod Agree
pub use Table.{crc_16_table}
use libpuppy.Base.{ℕ, zero, suc, ◌+◌, bit_and, bit_xor, get_or}
use libpuppy.Base.Memory.{Memory, ◌>>>◌}

-- The body of the loop: one byte into the running value.
unfoldable pub crc16_step : ℕ → ℕ → ℕ
crc16_step crc d = bit_xor (get_or crc_16_table (bit_and (bit_xor crc d) 0xff) 0) (crc >>> 8)

-- `while(size--)`, at the address `d`.
crc16_from : Memory → ℕ → ℕ → ℕ → ℕ
crc16_from m d zero crc = crc
crc16_from m d (suc size) crc = crc16_from m (d + 1) size (crc16_step crc (m d))

unfoldable pub crc16_ansi : Memory → ℕ → ℕ → ℕ
unfolding crc16_from crc16_step
crc16_ansi m addr size = crc16_from m addr size 0
