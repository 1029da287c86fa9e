-- ===== src/Convert/Uncalled.antt =====
-- The helper functions of proj/sparc-linux/syscall.c that no compiled case calls: timers, the name of a
-- file of the process, and an offset in two words.
use sparcy.Base.{
  ℕ, suc, ◌+◌, ◌*◌, ◌^◌, Bool, true, false, not, ◌&&◌, Option, none, some, List, [], ◌∷◌, ◌==◌, leb,
  if◌then◌else◌, u32, neg32, bit_and,
}
use sparcy.Errno.Target

abbrev pub timer_magic : ℕ
timer_magic = 0x0caf_0000

abbrev pub timer_magic_mask : ℕ
timer_magic_mask = 0xffff000

-- A timer's number from the guest's identifier, or -TARGET_EINVAL.
unfoldable pub get_timer_id : ℕ → ℕ
get_timer_id arg =
    if not (bit_and (u32 arg) timer_magic_mask == timer_magic)
    then neg32 Target.einval
    else if leb 32 (bit_and (u32 arg) 0xffff)
    then neg32 Target.einval
    else bit_and (u32 arg) 0xffff

-- The loop over `g_posix_timers` from the `k`-th on: the first free one is taken, or -1 is returned.
unfoldable pub take_free : ℕ → List ℕ → ℕ × List ℕ
take_free k [] = (neg32 1, [])
take_free k (timer ∷ timers) =
    let rest = take_free (suc k) timers in
    if timer == 0 then (k, 1 ∷ timers) else (rest.0, timer ∷ rest.1)

unfoldable pub next_free_host_timer : List ℕ → ℕ × List ℕ
unfolding take_free
next_free_host_timer g_posix_timers = take_free 0 g_posix_timers

-- The target is big-endian, so the first word is the high one.
unfoldable pub target_offset64 : ℕ → ℕ → ℕ
target_offset64 word0 word1 = u32 word0 * 2 ^ 32 + u32 word1

-- `strncmp(text, prefix, strlen(prefix))`, and the text after the prefix; a string is a list of its bytes
-- without the NUL.
unfoldable pub after_prefix : List ℕ → List ℕ → Option (List ℕ)
after_prefix [] text = some text
after_prefix (c ∷ prefix) [] = none
after_prefix (c ∷ prefix) (d ∷ text) =
    let rest = after_prefix prefix text in if c == d then rest else none

unfoldable pub same_text : List ℕ → List ℕ → Bool
same_text [] [] = true
same_text [] (d ∷ text) = false
same_text (c ∷ rest) [] = false
same_text (c ∷ rest) (d ∷ text) = let tail = same_text rest text in (c == d) && tail

-- "/proc/" and "self/"
abbrev pub proc_prefix : List ℕ
proc_prefix = 47 ∷ 112 ∷ 114 ∷ 111 ∷ 99 ∷ 47 ∷ []

abbrev pub self_prefix : List ℕ
self_prefix = 115 ∷ 101 ∷ 108 ∷ 102 ∷ 47 ∷ []

abbrev starts_with_digit : List ℕ → Bool
starts_with_digit [] = false
starts_with_digit (c ∷ text) = leb 49 c && leb c 57

-- What follows the process in the name, where it is this one; `myself` is its number and a slash.
unfoldable pub after_process : List ℕ → List ℕ → Option (List ℕ)
unfolding after_prefix
after_process myself text = elim (after_prefix self_prefix text) [
  | some rest ↦ some rest
  | none ↦ if starts_with_digit text then after_prefix myself text else none
]

unfoldable pub is_proc_myself : List ℕ → List ℕ → List ℕ → Bool
unfolding after_process same_text
is_proc_myself myself filename entry = elim (after_prefix proc_prefix filename) [
  | none ↦ false
  | some text ↦ elim (after_process myself text) [ none ↦ false | some rest ↦ same_text rest entry ]
]
