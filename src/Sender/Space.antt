-- ===== src/Sender/Space.antt =====
-- spool_space.go: the reserve of the filesystem that the spool leaves alone, on uint64.
use icinga_kubernetes.Common.{
  ℕ, ◌+◌, ◌-◌, ◌/◌, ◌%◌, ◌<◌, ltb, leb, ◌==◌, ◌≡◌, ◌↔◌, ◌⊎◌, max, ◌||◌, Bool, true, false, arith,
  if◌then◌else◌,
}

pub record SpoolDiskSpace : Type 0 where
  pub available : ℕ
  pub total : ℕ
  pub free_inodes : ℕ
  pub inodes : ℕ

-- 2^64
abbrev pub uint64_range : ℕ
uint64_range = 18_446_744_073_709_551_616

abbrev pub reserve : SpoolDiskSpace → ℕ
reserve s = max 67_108_864 (s.total / 20)

-- `needed` wraps; the difference does not, behind the first comparison.
unfoldable pub can_write : SpoolDiskSpace → ℕ → Bool
can_write s bytes =
    let needed = (bytes + 65_536) % uint64_range in
    if leb s.available (reserve s) || leb (s.available - reserve s) needed
    then false
    else (s.inodes == 0) || ltb (max 128 (s.inodes / 100)) s.free_inodes

-- A write is allowed exactly if it leaves more than the reserve free after its length and a margin
-- of 64 KiB, and if the filesystem counts no inodes or has more free ones than 128 and a hundredth
-- of all; for any length whose sum with the margin is in the range of uint64.
pub can_write_lem :
    (s : SpoolDiskSpace) (bytes : ℕ)
    → bytes + 65_536 < uint64_range
    → (can_write s bytes ≡ true) ↔ (
        (bytes + 65_536 + reserve s < s.available)
        × ((s.inodes ≡ 0) ⊎ (max 128 (s.inodes / 100) < s.free_inodes)))
unfolding can_write
can_write_lem s bytes small = ground arith
