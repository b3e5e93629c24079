-- ===== src/PuppyDir/Order.antt =====
-- The orders of puppy-dir.
use libpuppy.Base.{arith, ◌-◌, ◌≡◌, ◌≤◌, ◌^◌, ◌+◌, ◌<◌}
use libpuppy.PuppyDir.{negsuc, sub_ℕ, Entry, TfDatetime, ℤ, CString, compare_by_size}
use libpuppy.Base.Int.{int_of}

-- Where two sizes differ by less than 2 ^ 31, the comparison by size gives their difference.
pub compare_by_size_exact :
    (atoi : CString → ℤ) (time_of : TfDatetime → ℤ) (a b : Entry)
    → a.size < b.size + 2 ^ 31
    → b.size < a.size + 2 ^ 31
    → compare_by_size atoi time_of a b ≡ sub_ℕ a.size b.size
unfolding compare_by_size int_of
compare_by_size_exact atoi time_of a b h k = ground arith

-- A file that is larger by at least 2 ^ 31 and less than 2 ^ 32 bytes is taken for the smaller one.
pub compare_by_size_wraps :
    (atoi : CString → ℤ) (time_of : TfDatetime → ℤ) (a b : Entry)
    → b.size + 2 ^ 31 ≤ a.size
    → a.size < b.size + 2 ^ 32
    → compare_by_size atoi time_of a b ≡ negsuc (b.size + (2 ^ 32 - 1) - a.size)
unfolding compare_by_size int_of
compare_by_size_wraps atoi time_of a b h k = ground arith
