-- ===== src/Tests/MemoryTests.antt =====
-- Tests of the accessors and of the error numbers of proj/sparc-linux.
use sparcy.Base.{◌≡◌, ◌≢◌, ◌%◌, ◌/◌, ◌+◌, ◌^◌, arith}
use sparcy.Memory.{lduw_be_p, stw_be_p, ldl_be_p, stl_be_p, ldq_be_p, stq_be_p}
use sparcy.Memory.Accessors.{ld_be_p-st_be_p, stl_be_p_bytes}
use sparcy.Errno.{
  host_to_target_errno, target_to_host_errno_table, entry, host_to_target_errno_table,
}
use sparcy.Errno.Table.{target_to_host_errno_table-inverts}

ld_be_p-st_be_p_example :
    (lduw_be_p (stw_be_p (λ _. 0) 100 0x1234_5678) 100 ≡ 0x1234_5678 % 2 ^ 16)
    × (ldl_be_p (stl_be_p (λ _. 0) 100 0x1234_5678) 100 ≡ 0x1234_5678 % 2 ^ 32)
    × (ldq_be_p (stq_be_p (λ _. 0) 100 0x1234_5678) 100 ≡ 0x1234_5678 % 2 ^ 64)
ld_be_p-st_be_p_example = ld_be_p-st_be_p (λ _. 0) 100 0x1234_5678

stl_be_p_bytes_example :
    (stl_be_p (λ _. 0) 100 0x1234_5678 100 ≡ 0x1234_5678 / 2 ^ 24 % 256)
    × (stl_be_p (λ _. 0) 100 0x1234_5678 (100 + 1) ≡ 0x1234_5678 / 2 ^ 16 % 256)
    × (stl_be_p (λ _. 0) 100 0x1234_5678 (100 + 2) ≡ 0x1234_5678 / 2 ^ 8 % 256)
    × (stl_be_p (λ _. 0) 100 0x1234_5678 (100 + 3) ≡ 0x1234_5678 % 256)
stl_be_p_bytes_example = stl_be_p_bytes (λ _. 0) 100 0x1234_5678

edeadlk_listed : entry host_to_target_errno_table 35 ≢ 0
unfolding host_to_target_errno_table
edeadlk_listed h = absurd (omega arith)

target_to_host_errno_table-inverts_example :
    target_to_host_errno_table (host_to_target_errno 35) ≡ 35
target_to_host_errno_table-inverts_example =
    target_to_host_errno_table-inverts 35 (omega arith) (omega arith) edeadlk_listed
