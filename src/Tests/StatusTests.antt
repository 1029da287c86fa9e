-- ===== src/Tests/StatusTests.antt =====
-- The calls about files and file systems, and select, of proj/sparc-linux/syscall.c at concrete inputs.
use sparcy.Base.{refl, [], ◌∷◌, ◌++◌, none, some, arith, neg32, inl}
use sparcy.Nr
use sparcy.Guest.{Host, g2h}
use sparcy.Syscall.{Args, do_syscall}
use sparcy.Syscall.Select.{SelectEnds, AreSets}
use sparcy.Syscall.Select.Whole.{do_syscall-SelectEnds}
use sparcy.Convert.FdSet.{fd_set, fd_zero, fields_of, words_for}
use sparcy.Syscall.Errors.{fails, succeeds}
use sparcy.Syscall.Status.{StatEnds, described, asked, stat, fstat64}
use sparcy.Syscall.Status.Whole.{do_syscall-StatEnds}
use sparcy.Tests.Fixtures.{small_sys, call_with}

-- A host that knows of one file, and one that knows of none.
abbrev one_file : Host
one_file trace m call = record {
  result = 0;
  error = none;
  memory = m;
  out = 1 ∷ 2 ∷ 0x81a4 ∷ 1 ∷ 1000 ∷ 100 ∷ 0 ∷ 4096 ∷ [];
}

abbrev no_file : Host
no_file trace m call = record { result = neg32 1; error = some 2; memory = m; out = [] }

do_syscall-StatEnds_example :
    let a = call_with Nr.stat 0x100 0x9000 in
    StatEnds
      (described stat)
      (do_syscall one_file a small_sys)
      a
      small_sys
      (one_file [] (λ _. 7) (asked (described stat) a small_sys))
do_syscall-StatEnds_example =
    do_syscall-StatEnds one_file stat (call_with Nr.stat 0x100 0x9000) small_sys refl
      (succeeds (omega arith))

no_file-StatEnds :
    let a = call_with Nr.fstat64 3 0x9000 in
    StatEnds
      (described fstat64)
      (do_syscall no_file a small_sys)
      a
      small_sys
      (no_file [] (λ _. 7) (asked (described fstat64) a small_sys))
no_file-StatEnds =
    do_syscall-StatEnds no_file fstat64 (call_with Nr.fstat64 3 0x9000) small_sys refl
      (fails 2 refl refl (omega arith) (omega arith))

-- A host whose select always finds that descriptor 1 can be read and descriptor 2 written.
abbrev two_ready : Host
two_ready trace m call = record {
  result = 2;
  error = none;
  memory = m;
  out = fields_of 1024 0 (fd_set 1 fd_zero) ++ fields_of 1024 0 (fd_set 2 fd_zero);
}

select_sets : AreSets small_sys.target 5 0x9000 0xa000 0
unfolding g2h words_for
select_sets = record {
  read_valid = λ _. omega arith;
  write_valid = λ _. omega arith;
  except_valid = λ none_there. absurd (none_there refl);
  read_write = λ _ _. inl (omega arith);
  read_except = λ _ none_there. absurd (none_there refl);
  write_except = λ _ none_there. absurd (none_there refl);
}

abbrev select_args : Args
select_args = record {
  num = Nr.newselect;
  arg1 = 5;
  arg2 = 0x9000;
  arg3 = 0xa000;
  arg4 = 0;
  arg5 = 0;
  arg6 = 0;
  arg7 = 0;
  arg8 = 0;
  ret = 0;
}

do_syscall-SelectEnds_example :
    SelectEnds two_ready 5 0x9000 0xa000 0 small_sys (do_syscall two_ready select_args small_sys)
do_syscall-SelectEnds_example =
    do_syscall-SelectEnds two_ready select_args small_sys refl refl (omega arith) select_sets
      (λ call _. succeeds (omega arith))
