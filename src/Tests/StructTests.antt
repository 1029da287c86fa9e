-- ===== src/Tests/StructTests.antt =====
-- Tests of the structures and numbers of proj/sparc-linux/syscall_defs.h, termbits.h and socket.h.
use Prim.Native.String.{String}
use text.Mathlib.Text as Text
use sparcy.Base.{
  ℕ, ◌≡◌, refl, ◌==◌, if◌then◌else◌, Bool, true, false, not, ◌&&◌, ◌||◌, ◌<◌, ◌^◌, List, [], ◌∷◌,
  ◌++◌, some, arith,
}
use sparcy.Memory.{tswapal, tswap32, bswap32}
use sparcy.Guest.{g2h}
use sparcy.Structs.{sizeof, find, int16}
use sparcy.Structs.Tables.{fields_of}
use sparcy.Structs.Files.{target_stat, target_stat64, target_statfs, target_statfs64}
use sparcy.Structs.Calls.{target_sysinfo, target_epoll_event}
use sparcy.Structs.Signals.{target_siginfo_t, target_sigevent, tswap_sigset}
use sparcy.Structs.Ioctl.{target_ioc, target_ior, target_iow, target_io, target_iowr, target_iowru}
use sparcy.Structs.Ioctl.Parts.{digits_at, digits_at-target_ioc}
use sparcy.Structs.Ioctl.Requests.{
  block_requests, mapper_requests, terminal_requests, serial_requests,
}
use sparcy.Structs.Ioctl.Sound.{dsp_requests, sequencer_requests}
use sparcy.Structs.Constants.Sockets.{socket_types, credential_options}
use sparcy.Structs.Constants.Terminals.{input_modes, local_modes}
use sparcy.Convert.Stat.{
  host_to_target_stat, host_to_target_stat64, host_to_target_statfs, host_to_target_statfs64,
  host_to_target_sysinfo,
}
use sparcy.Convert.Stat.Fields.{stat_slots, stat64_slots, statfs_slots, sysinfo_slots}
use sparcy.Convert.Stat.ReadBack.{Gives, host_to_target_stat-Gives}
use sparcy.Tests.Fixtures.{small_sys}

stat_is_64_bytes : sizeof target_stat ≡ 64
unfolding sizeof
stat_is_64_bytes = refl

siginfo_is_128_bytes : sizeof target_siginfo_t ≡ 128
unfolding sizeof
siginfo_is_128_bytes = refl

-- The host's pointers make the structure 8 bytes longer than the 64 of TARGET_SIGEV_MAX_SIZE.
sigevent_is_72_bytes : sizeof target_sigevent ≡ 72
unfolding sizeof target_sigevent
sigevent_is_72_bytes = refl

packed_event : sizeof target_epoll_event ≡ 12
unfolding sizeof
packed_event = refl

st_uid_place : find (fields_of target_stat) "st_uid" 0 ≡ some (12, int16)
unfolding find
st_uid_place = refl

swapped_set : tswap_sigset (tswap_sigset (1 ∷ 0x8000_0000 ∷ [])) ≡ 1 ∷ 0x8000_0000 ∷ []
unfolding tswap_sigset tswapal tswap32 bswap32
swapped_set = refl

host_to_target_stat-Gives_example :
    let st : List ℕ = 1 ∷ 2 ∷ 0x81a4 ∷ 1 ∷ 1000 ∷ 100 ∷ 0 ∷ 4096 ∷ [] in
    let p = g2h small_sys.target 0x9000 in
    Gives (host_to_target_stat 0x9000 st) small_sys p target_stat stat_slots st
    × Gives (host_to_target_stat64 0x9000 st) small_sys p target_stat64 stat64_slots st
    × Gives (host_to_target_statfs 0x9000 st) small_sys p target_statfs statfs_slots st
    × Gives (host_to_target_statfs64 0x9000 st) small_sys p target_statfs64 statfs_slots st
    × Gives (host_to_target_sysinfo 0x9000 st) small_sys p target_sysinfo sysinfo_slots st
host_to_target_stat-Gives_example =
    host_to_target_stat-Gives 0x9000 (1 ∷ 2 ∷ 0x81a4 ∷ 1 ∷ 1000 ∷ 100 ∷ 0 ∷ 4096 ∷ []) small_sys
      (unfold g2h in omega arith)

digits_at-target_ioc_example :
    (digits_at 29 3 (target_ioc 2 b'T' 8 36) ≡ 2)
    × (digits_at 8 8 (target_ioc 2 b'T' 8 36) ≡ b'T')
    × (digits_at 0 8 (target_ioc 2 b'T' 8 36) ≡ 8)
    × (digits_at 16 13 (target_ioc 2 b'T' 8 36) ≡ 36)
    × (target_ioc 2 b'T' 8 36 < 2 ^ 32)
digits_at-target_ioc_example = digits_at-target_ioc 2 b'T' 8 36 (omega arith)

-- The number of a name in a table.
abbrev number : String → List (String × ℕ) → ℕ
number wanted [] = 0
number wanted ((name, n) ∷ table) = if Text.◌==◌ wanted name then n else number wanted table

abbrev mentions : ℕ → List (String × ℕ) → Bool
mentions n [] = false
mentions n ((name, m) ∷ table) = n == m || mentions n table

abbrev all_distinct : List (String × ℕ) → Bool
all_distinct [] = true
all_distinct ((name, n) ∷ table) = not (mentions n table) && all_distinct table

tcgets : number "TCGETS" terminal_requests ≡ 0x40245408
unfolding target_ior sizeof
tcgets = refl

-- No two requests of these devices have the same number.
requests_are_distinct :
    all_distinct (block_requests ++ (mapper_requests ++ (terminal_requests ++ serial_requests)))
    ≡ true
unfolding target_io target_ior target_iow target_iowr target_iowru sizeof
requests_are_distinct = refl

-- The request to read the triggers has the number of the one to set them, which is written for another
-- order of the directions.
triggers_collide :
    number "SNDCTL_DSP_GETTRIGGER" dsp_requests ≡ number "SNDCTL_DSP_SETTRIGGER" sequencer_requests
unfolding target_ior sizeof
triggers_collide = refl

-- A number of this kind that reads in the other order writes here.
read_rate_writes : digits_at 29 3 (number "SNDCTL_SEQ_GETINCOUNT" sequencer_requests) ≡ 4
read_rate_writes = refl

security_options_collide : number "SO_PASSSEC" socket_types ≡ number "SO_PEERSEC" credential_options
security_options_collide = refl

input_modes_are_distinct : all_distinct input_modes ≡ true
input_modes_are_distinct = refl

local_modes_are_distinct : all_distinct local_modes ≡ true
local_modes_are_distinct = refl
