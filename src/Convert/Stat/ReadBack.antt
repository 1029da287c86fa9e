-- ===== src/Convert/Stat/ReadBack.antt =====
-- What the guest reads in the structures that proj/sparc-linux/syscall.c fills in for stat, statfs and
-- sysinfo, by the declarations of proj/sparc-linux/syscall_defs.h.
use mathlib.Core.Path.{subst}
use sparcy.Base.{ℕ, ◌+◌, ◌≤◌, ◌<◌, ◌≡◌, ◌≢◌, refl, ap, sym, ◌∙◌, ◌⊎◌, inl, true, List, All, arith}
use sparcy.Memory.{Memory, memset}
use sparcy.Memory.Ranges.{memset_outside}
use sparcy.Guest.{M, Sys, g2h}
use sparcy.Structs.{CType, sizeof}
use sparcy.Structs.Files.{target_stat, target_stat64, target_statfs, target_statfs64}
use sparcy.Structs.Calls.{target_sysinfo}
use sparcy.Structs.Stores.{
  AllRead, AllRead-below, put_each-put_all, all_apart, all_below, put_all_lem, put_all_outside,
}
use sparcy.Structs.Tables.{Slot, Reads, stores_of, all_placed, stores_of-Reads}
use sparcy.Convert.Stat.{
  host_to_target_stat, host_to_target_stat64, host_to_target_statfs, host_to_target_statfs64,
  host_to_target_sysinfo,
}
use sparcy.Convert.Stat.Fields.{
  stat_slots, stat64_slots, statfs_slots, sysinfo_slots, stored, Fills, host_to_target_stat-Fills,
  host_to_target_stat64-Fills, host_to_target_statfs-Fills, host_to_target_statfs64-Fills,
  host_to_target_sysinfo-Fills,
}

-- A statement fills in a structure of type `t` at `p`: it ends, the guest reads each field of the table by
-- its declaration, and no byte outside the structure has changed.
pub record Gives (statement : M (Unit {0})) (s : Sys) (p : ℕ) (t : CType) (slots : List Slot)
    (values : List ℕ) : Type 0 where
  pub after : Memory
  pub fills : Fills statement s after
  pub reads : All (Reads after p t values) slots
  pub outside : (r : ℕ) → (r < p) ⊎ (p + sizeof t ≤ r) → after r ≡ s.memory r

-- What is checked of a table: its fields are there, and their bytes are apart and below `n`.
IsTable : CType → List Slot → List ℕ → ℕ → Type 0
IsTable t slots values n =
    (all_placed t slots ≡ true)
    × (all_apart (stores_of t slots values) ≡ true)
    × (all_below n (stores_of t slots values) ≡ true)

-- Where nothing else is written, or the first and the last bytes are set to 0.
module _ (statement : M (Unit {0})) (s : Sys) (p : ℕ) (t : CType) (slots : List Slot)
    (values : List ℕ) where
  stored_read :
      (m : Memory) (n : ℕ)
      → IsTable t slots values n
      → AllRead (stored m p t slots values) p (stores_of t slots values)
  unfolding IsTable
  stored_read m n (_, separate, _) =
      let ss = stores_of t slots values in
      subst (λ (m' : Memory). AllRead m' p ss) (sym (put_each-put_all m p ss))
        (put_all_lem m p ss separate)

  stored_outside :
      (m : Memory) (n r : ℕ)
      → IsTable t slots values n
      → (r < p) ⊎ (p + n ≤ r)
      → stored m p t slots values r ≡ m r
  unfolding IsTable
  stored_outside m n r (_, _, inside) h =
      let ss = stores_of t slots values in
      ap (λ (m' : Memory). m' r) (put_each-put_all m p ss) ∙ put_all_outside m p n ss r inside h

  stored-Gives :
      (m : Memory)
      → Fills statement s (stored m p t slots values)
      → IsTable t slots values (sizeof t)
      → ((r : ℕ) → (r < p) ⊎ (p + sizeof t ≤ r) → m r ≡ s.memory r)
      → Gives statement s p t slots values
  stored-Gives m fills table keeps = record {
    after = stored m p t slots values;
    fills = fills;
    reads =
        stores_of-Reads (stored m p t slots values) p t slots values (unfold IsTable in table.0)
          (stored_read m (sizeof t) table);
    outside = λ r h. stored_outside m (sizeof t) r table h ∙ keeps r h;
  }

  cleared-Gives :
      (n k : ℕ)
      → Fills statement s (memset (stored s.memory p t slots values) (p + n) 0 k)
      → IsTable t slots values n
      → n + k ≤ sizeof t
      → Gives statement s p t slots values
  cleared-Gives n k fills table whole =
      let m = stored s.memory p t slots values in
      let m' = memset m (p + n) 0 k in
      record {
        after = m';
        fills = fills;
        reads = stores_of-Reads m' p t slots values (unfold IsTable in table.0) (
            AllRead-below m m' p n (stores_of t slots values) (unfold IsTable in table.2)
              (λ r below. memset_outside m (p + n) 0 k r (inl below))
              (stored_read s.memory n table));
        outside = λ r h.
            memset_outside m (p + n) 0 k r (omega (arith, whole))
            ∙ stored_outside s.memory n r table (omega (arith, whole));
      }

module _ (addr : ℕ) (st : List ℕ) (s : Sys) (valid : g2h s.target addr ≢ 0) where
  -- Where the address is not NULL on the host, the statements that fill in `struct stat`, `stat64`,
  -- `statfs`, `statfs64` and `sysinfo` end; the guest that reads a field by its declaration finds the
  -- host's value, cut to the field's width; and no byte outside the structure has changed.
  pub host_to_target_stat-Gives :
      let p = g2h s.target addr in
      Gives (host_to_target_stat addr st) s p target_stat stat_slots st
      × Gives (host_to_target_stat64 addr st) s p target_stat64 stat64_slots st
      × Gives (host_to_target_statfs addr st) s p target_statfs statfs_slots st
      × Gives (host_to_target_statfs64 addr st) s p target_statfs64 statfs_slots st
      × Gives (host_to_target_sysinfo addr st) s p target_sysinfo sysinfo_slots st
  unfolding stores_of IsTable sizeof
  host_to_target_stat-Gives =
      let p = g2h s.target addr in
      (
        stored-Gives (host_to_target_stat addr st) s p target_stat stat_slots st
            (memset s.memory p 0 64) (host_to_target_stat-Fills addr st s valid) (refl, refl, refl)
            (memset_outside s.memory p 0 64),
        stored-Gives (host_to_target_stat64 addr st) s p target_stat64 stat64_slots st
            (memset s.memory p 0 104) (host_to_target_stat64-Fills addr st s valid)
            (refl, refl, refl) (memset_outside s.memory p 0 104),
        cleared-Gives (host_to_target_statfs addr st) s p target_statfs statfs_slots st 44 20
            (host_to_target_statfs-Fills addr st s valid) (refl, refl, refl) (omega arith),
        cleared-Gives (host_to_target_statfs64 addr st) s p target_statfs64 statfs_slots st 64 20
            (host_to_target_statfs64-Fills addr st s valid) (refl, refl, refl) (omega arith),
        stored-Gives (host_to_target_sysinfo addr st) s p target_sysinfo sysinfo_slots st s.memory
            (host_to_target_sysinfo-Fills addr st s valid) (refl, refl, refl) λ r h. refl,
      )
