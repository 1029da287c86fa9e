-- ===== src/Convert/Stat/Fields.antt =====
-- The stores by which proj/sparc-linux/syscall.c fills in the structures of stat, statfs and sysinfo, as
-- tables of the fields that proj/sparc-linux/syscall_defs.h declares.
use sparcy.Base.{ℕ, ◌+◌, ◌≡◌, ◌≢◌, refl, List, [], ◌∷◌}
use sparcy.Memory.{Memory, memset}
use sparcy.Guest.{M, Sys, next, efault, ◌>>=◌, put_half, put_long, put_quad, write_memory, g2h}
use sparcy.Guest.Valid.{lock_user_lem, lock_user_null}
use sparcy.Structs.{CType}
use sparcy.Structs.Files.{target_stat, target_stat64, target_statfs, target_statfs64}
use sparcy.Structs.Calls.{target_sysinfo}
use sparcy.Structs.Stores.{put_each}
use sparcy.Structs.Tables.{Slot, stores_of}
use sparcy.Convert.Stat.{
  host_to_target_stat, host_to_target_stat64, host_to_target_statfs, host_to_target_statfs64,
  host_to_target_sysinfo,
}

-- The fields in the order in which they are stored, with the host's values.
abbrev pub stat_slots : List Slot
stat_slots =
    ("st_dev", 0, 0)
    ∷ ("st_ino", 0, 1)
    ∷ ("st_mode", 0, 2)
    ∷ ("st_uid", 0, 4)
    ∷ ("st_gid", 0, 5)
    ∷ ("st_nlink", 0, 3)
    ∷ ("st_rdev", 0, 6)
    ∷ ("st_size", 0, 7)
    ∷ ("st_blksize", 0, 8)
    ∷ ("st_blocks", 0, 9)
    ∷ ("target_st_atime", 0, 10)
    ∷ ("target_st_mtime", 0, 11)
    ∷ ("target_st_ctime", 0, 12)
    ∷ []

abbrev pub stat64_slots : List Slot
stat64_slots =
    ("st_dev", 0, 0)
    ∷ ("st_ino", 0, 1)
    ∷ ("st_mode", 0, 2)
    ∷ ("st_nlink", 0, 3)
    ∷ ("st_uid", 0, 4)
    ∷ ("st_gid", 0, 5)
    ∷ ("st_rdev", 0, 6)
    ∷ ("st_size", 0, 7)
    ∷ ("st_blksize", 0, 8)
    ∷ ("st_blocks", 0, 9)
    ∷ ("target_st_atime", 0, 10)
    ∷ ("target_st_mtime", 0, 11)
    ∷ ("target_st_ctime", 0, 12)
    ∷ []

abbrev pub statfs_slots : List Slot
statfs_slots =
    ("f_type", 0, 0)
    ∷ ("f_bsize", 0, 1)
    ∷ ("f_blocks", 0, 2)
    ∷ ("f_bfree", 0, 3)
    ∷ ("f_bavail", 0, 4)
    ∷ ("f_files", 0, 5)
    ∷ ("f_ffree", 0, 6)
    ∷ ("f_fsid", 0, 7)
    ∷ ("f_fsid", 1, 8)
    ∷ ("f_namelen", 0, 9)
    ∷ ("f_frsize", 0, 10)
    ∷ []

abbrev pub sysinfo_slots : List Slot
sysinfo_slots =
    ("uptime", 0, 0)
    ∷ ("loads", 0, 1)
    ∷ ("loads", 1, 2)
    ∷ ("loads", 2, 3)
    ∷ ("totalram", 0, 4)
    ∷ ("freeram", 0, 5)
    ∷ ("sharedram", 0, 6)
    ∷ ("bufferram", 0, 7)
    ∷ ("totalswap", 0, 8)
    ∷ ("freeswap", 0, 9)
    ∷ ("procs", 0, 10)
    ∷ ("totalhigh", 0, 11)
    ∷ ("freehigh", 0, 12)
    ∷ ("mem_unit", 0, 13)
    ∷ []

-- The memory after the fields are stored, where `m` is that before.
abbrev pub stored : Memory → ℕ → CType → List Slot → List ℕ → Memory
stored m p t slots values = put_each m p (stores_of t slots values)

-- A statement fills in a structure at `p`, so that the memory is `m`.
unfoldable pub Fills : M (Unit {0}) → Sys → Memory → Type 0
Fills statement s m = statement s ≡ (next tt, record s { memory = m })

module _ (addr : ℕ) (st : List ℕ) (s : Sys) (valid : g2h s.target addr ≢ 0) where
  pub host_to_target_stat-Fills :
      let p = g2h s.target addr in
      Fills
        (host_to_target_stat addr st)
        s
        (stored (memset s.memory p 0 64) p target_stat stat_slots st)
  unfolding Fills host_to_target_stat ◌>>=◌ put_half put_long write_memory stores_of
  host_to_target_stat-Fills = rw (lock_user_lem addr s valid) refl

  pub host_to_target_stat64-Fills :
      let p = g2h s.target addr in
      Fills
        (host_to_target_stat64 addr st)
        s
        (stored (memset s.memory p 0 104) p target_stat64 stat64_slots st)
  unfolding Fills host_to_target_stat64 ◌>>=◌ put_half put_long put_quad write_memory stores_of
  host_to_target_stat64-Fills = rw (lock_user_lem addr s valid) refl

  pub host_to_target_statfs-Fills :
      let p = g2h s.target addr in
      Fills
        (host_to_target_statfs addr st)
        s
        (memset (stored s.memory p target_statfs statfs_slots st) (p + 44) 0 20)
  unfolding Fills host_to_target_statfs ◌>>=◌ put_long write_memory stores_of
  host_to_target_statfs-Fills = rw (lock_user_lem addr s valid) refl

  pub host_to_target_statfs64-Fills :
      let p = g2h s.target addr in
      Fills
        (host_to_target_statfs64 addr st)
        s
        (memset (stored s.memory p target_statfs64 statfs_slots st) (p + 64) 0 20)
  unfolding Fills host_to_target_statfs64 ◌>>=◌ put_long put_quad write_memory stores_of
  host_to_target_statfs64-Fills = rw (lock_user_lem addr s valid) refl

  pub host_to_target_sysinfo-Fills :
      let p = g2h s.target addr in
      Fills (host_to_target_sysinfo addr st) s (stored s.memory p target_sysinfo sysinfo_slots st)
  unfolding Fills host_to_target_sysinfo ◌>>=◌ put_half put_long write_memory stores_of
  host_to_target_sysinfo-Fills = rw (lock_user_lem addr s valid) refl

-- At an address that is NULL on the host nothing is stored, and control goes to `efault`.
module _ (addr : ℕ) (st : List ℕ) (s : Sys) (null : g2h s.target addr ≡ 0) where
  pub host_to_target_stat_null :
      (host_to_target_stat addr st s ≡ (efault, s))
      × (host_to_target_stat64 addr st s ≡ (efault, s))
      × (host_to_target_statfs addr st s ≡ (efault, s))
      × (host_to_target_statfs64 addr st s ≡ (efault, s))
  unfolding host_to_target_stat host_to_target_stat64 host_to_target_statfs host_to_target_statfs64
      ◌>>=◌
  host_to_target_stat_null = rw (lock_user_null addr s null) (refl, refl, refl, refl)
