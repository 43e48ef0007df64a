-- ===== src/Disk.antt =====
-- internal/disk/disk.go: the disk headroom check, from what statfs reported.
use gitd.Prelude.{ℕ, ◌*◌, ◌%◌, ◌^◌, Bool, Option, none, some, ltb, if◌then◌else◌}
use gitd.Prelude.Result.{Result, ok, err, ◌>>=◌}

-- the fields of statfs that are read
pub record Statfs : Type 0 where
  pub bavail : ℕ
  pub bsize : ℕ

pub data DiskError : Type 0 where
  statfs_failed : DiskError
  low_space : ℕ → DiskError

-- the product of two uint64
unfoldable pub free_bytes : Option Statfs → Result DiskError ℕ
free_bytes none = err statfs_failed
free_bytes (some st) = ok (st.bavail * st.bsize % 2 ^ 64)

pub record Headroom : Type 0 where
  pub min_free : ℕ
  pub warn_free : ℕ

-- The result of Check says whether a warning was logged.
unfoldable pub check : Headroom → Option Statfs → Result DiskError Bool
unfolding free_bytes
check h st = do
  free ← free_bytes st
  if ltb free h.min_free then err (low_space free) else ok (ltb free h.warn_free)
