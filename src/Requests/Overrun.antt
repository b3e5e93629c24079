-- ===== src/Requests/Overrun.antt =====
-- The length checks of the requests: which keep `strcpy` inside the packet, and which do not.
use libpuppy.Base.{ℕ, ◌+◌, ◌-◌, ◌^◌, ◌≤◌, ◌<◌, ◌≡◌, ◌≢◌, ◌↔◌, arith, length}
use libpuppy.Base.Memory.{Memory, u16}
use libpuppy.Requests.{
  CString, too_long, overrun, strcpy, hdd_dir_request, hdd_file_send_request, hdd_del_request,
  hdd_rename_request, hdd_create_dir_request, exceeds,
}

-- For a path of fewer than 2 ^ 31 - 12 bytes, `send_cmd_hdd_dir`, `send_cmd_hdd_del` and
-- `send_cmd_hdd_file_send` write no byte past the packet, and refuse exactly the paths of at least
-- 65526 bytes, or 65523 for a file transfer.
pub checked_requests :
    (req : Memory) (dir : ℕ) (path : CString)
    → length path < 2 ^ 31 - 12
    → (hdd_dir_request req path ≢ overrun)
      × (hdd_del_request req path ≢ overrun)
      × (hdd_file_send_request req dir path ≢ overrun)
      × ((hdd_dir_request req path ≡ too_long) ↔ (65526 ≤ length path))
      × ((hdd_del_request req path ≡ too_long) ↔ (65526 ≤ length path))
      × ((hdd_file_send_request req dir path ≡ too_long) ↔ (65523 ≤ length path))
unfolding hdd_dir_request hdd_del_request hdd_file_send_request strcpy exceeds
checked_requests req dir path short =
    (ground arith, ground arith, ground arith, ground arith, ground arith, ground arith)

-- From 2 ^ 31 - 1 to 2 ^ 32 - 1 bytes the `int` length of a path is negative, or so is its sum with the
-- header or that is small: the path passes the check of `send_cmd_hdd_dir`, `send_cmd_hdd_del` and
-- `send_cmd_hdd_file_send`, and is copied past the packet.
pub negative_lengths :
    (req : Memory) (dir : ℕ) (path : CString)
    → 2 ^ 31 ≤ length path + 1
    → length path < 2 ^ 32
    → (hdd_dir_request req path ≡ overrun)
      × (hdd_del_request req path ≡ overrun)
      × (hdd_file_send_request req dir path ≡ overrun)
unfolding hdd_dir_request hdd_del_request hdd_file_send_request strcpy exceeds
negative_lengths req dir path long below = (ground arith, ground arith, ground arith)

-- `send_cmd_hdd_create_dir` and `send_cmd_hdd_rename` write no byte past the packet where every path
-- has fewer than 65535 bytes.
pub short_requests :
    (req : Memory) (src dst : CString)
    → length src < 65535
    → length dst < 65535
    → (hdd_create_dir_request req src ≢ overrun) × (hdd_rename_request req src dst ≢ overrun)
unfolding hdd_create_dir_request hdd_rename_request strcpy
short_requests req src dst hs hd = (ground arith, ground arith)

-- `send_cmd_hdd_create_dir` keeps the length in 16 bits: every path of at least 65525 bytes whose
-- wrapped length passes the check is copied past the end of the packet.
pub create_dir_overruns :
    (req : Memory) (path : CString)
    → 65525 ≤ length path
    → u16 (length path + 1) < 65525
    → hdd_create_dir_request req path ≡ overrun
unfolding hdd_create_dir_request strcpy
create_dir_overruns req path long passes = ground arith

-- So it is in `send_cmd_hdd_rename`, for a source path of at least 65525 bytes.
pub rename_overruns :
    (req : Memory) (src dst : CString)
    → 65525 ≤ length src
    → u16 (length src + 1) + u16 (length dst + 1) < 65523
    → hdd_rename_request req src dst ≡ overrun
unfolding hdd_rename_request strcpy
rename_overruns req src dst long passes = ground arith
