-- ===== src/Session/Disk.antt =====
-- sc-capture/internal/session/disk.go, without the two functions that compute on floating point
-- numbers, `ParseSize` and `HumanSize`. What `Statfs` returns is an argument, `none` for its error.
use star_konflict.Base.{
  ℕ, ◌*◌, ◌%◌, ◌≤◌, Bytes, text, Option, none, some, leb, ◌==◌, if◌then◌else◌, u64_mod, arith,
}

abbrev pub default_min_free : ℕ
default_min_free = 2147483648

abbrev pub default_floor : ℕ
default_floor = 536870912

pub data DiskState : Type 0 where
  disk_ok disk_warn disk_floor : DiskState

unfoldable pub disk_state_string : DiskState → Bytes
disk_state_string disk_warn = text "warn"
disk_state_string disk_floor = text "floor"
disk_state_string disk_ok = text "ok"

pub record DiskMonitor : Type 0 where
  pub min_free : ℕ
  pub floor : ℕ

unfoldable pub new_disk_monitor : ℕ → ℕ → DiskMonitor
new_disk_monitor min_free floor = record {
  min_free = if min_free == 0 then default_min_free else min_free;
  floor = if floor == 0 then default_floor else floor;
}

-- `st.Bavail * uint64(st.Bsize)`.
unfoldable pub free_bytes : Option (ℕ × ℕ) → Option ℕ
free_bytes none = none
free_bytes (some (blocks, size)) = some (blocks * size % u64_mod)

unfoldable pub state_at : DiskMonitor → ℕ → DiskState
state_at d free =
    if leb free d.floor then disk_floor else if leb free d.min_free then disk_warn else disk_ok

-- `none` stands for `DiskOK, 0, err`.
unfoldable pub check_free : DiskMonitor → Option ℕ → Option (DiskState × ℕ)
check_free d none = none
check_free d (some free) = some (state_at d free, free)

unfoldable pub check : DiskMonitor → Option (ℕ × ℕ) → Option (DiskState × ℕ)
check d stat = check_free d (free_bytes stat)

-- How bad a state is.
abbrev pub severity : DiskState → ℕ
severity disk_ok = 0
severity disk_warn = 1
severity disk_floor = 2

-- Less free space is never a better state, whatever the two thresholds are.
pub state_at_antitone :
    (d : DiskMonitor) (more less : ℕ)
    → less ≤ more
    → severity (state_at d more) ≤ severity (state_at d less)
unfolding state_at
state_at_antitone d more less h = ground arith
