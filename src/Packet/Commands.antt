-- ===== src/Packet/Commands.antt =====
-- The command codes of usb_io.h.
use libpuppy.Base.{ℕ}

abbrev pub fail : ℕ
fail = 0x0001

abbrev pub success : ℕ
success = 0x0002

abbrev pub cancel : ℕ
cancel = 0x0003

abbrev pub cmd_ready : ℕ
cmd_ready = 0x0100

abbrev pub cmd_reset : ℕ
cmd_reset = 0x0101

abbrev pub cmd_turbo : ℕ
cmd_turbo = 0x0102

abbrev pub cmd_hdd_size : ℕ
cmd_hdd_size = 0x1000

abbrev pub data_hdd_size : ℕ
data_hdd_size = 0x1001

abbrev pub cmd_hdd_dir : ℕ
cmd_hdd_dir = 0x1002

abbrev pub data_hdd_dir : ℕ
data_hdd_dir = 0x1003

abbrev pub data_hdd_dir_end : ℕ
data_hdd_dir_end = 0x1004

abbrev pub cmd_hdd_del : ℕ
cmd_hdd_del = 0x1005

abbrev pub cmd_hdd_rename : ℕ
cmd_hdd_rename = 0x1006

abbrev pub cmd_hdd_create_dir : ℕ
cmd_hdd_create_dir = 0x1007

abbrev pub cmd_hdd_file_send : ℕ
cmd_hdd_file_send = 0x1008

abbrev pub data_hdd_file_start : ℕ
data_hdd_file_start = 0x1009

abbrev pub data_hdd_file_data : ℕ
data_hdd_file_data = 0x100a

abbrev pub data_hdd_file_end : ℕ
data_hdd_file_end = 0x100b
