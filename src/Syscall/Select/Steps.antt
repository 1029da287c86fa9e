-- ===== src/Syscall/Select/Steps.antt =====
-- The statements of `do_select` in proj/sparc-linux/syscall.c, where it is called without a timeout.
use mathlib.Core.Path.{subst}
use sparcy.Base.{ℕ, ◌≤◌, ◌≡◌, refl, ap, sym, ◌∙◌, if◌then◌else◌, Option, List, ◌∷◌, ◌++◌}
use sparcy.Memory.{Memory}
use sparcy.Guest.{
  Host, HostFn, HostCall, Reply, Sys, Flow, Target, M, next, bind_flow, ◌>>=◌, ◌>>◌, pure,
  host_call, get_errno, gets, is_error,
}
use sparcy.Guest.Valid.{seq_lem}
use sparcy.Convert.FdSet.{
  fd_setsize, FdSet, set_at, pointer_fields, timeval_fields, copy_from_user_fdset_ptr,
  copy_from_user_timeval_ptr, copy_back, do_select,
}
use sparcy.Convert.FdSet.Copies.{
  IsSetAddress, IsAsked, copy_from_user_fdset_ptr-IsAsked, put_set, put_set_lem, put_back,
  put_set-in_set, put_set_other,
}
use sparcy.Syscall.{sys, finish}
use sparcy.Syscall.Errors.{Answers, Reports, reports_error, reports_value, sys-Reports}
use sparcy.Syscall.Select.{
  select_call, IsBack, Selected, select_failed, selected, SelectEnds, AreSets,
}

-- The statements after the sets and the time have been read.
module _ (host : Host) (n r w e : ℕ) where
  abbrev after_time : Option FdSet → Option FdSet → Option FdSet → M ℕ
  after_time rfds wfds efds = do
    reply ← host_call host HostFn.select (select_call n rfds wfds efds).args
    ret ← get_errno reply.result
    if is_error ret then pure tt else copy_back n r w e 0 reply.out
    pure ret

  abbrev after_efds : Option FdSet → Option FdSet → Option FdSet → M ℕ
  after_efds rfds wfds efds = copy_from_user_timeval_ptr 0 >>= λ tv. do
    reply ← host_call host HostFn.select (
        n
        ∷ (pointer_fields rfds
            ++ (pointer_fields wfds ++ (pointer_fields efds ++ timeval_fields tv))))
    ret ← get_errno reply.result
    if is_error ret then pure tt else copy_back n r w e 0 reply.out
    pure ret

  abbrev after_wfds : Option FdSet → Option FdSet → M ℕ
  after_wfds rfds wfds = copy_from_user_fdset_ptr e n >>= after_efds rfds wfds

  abbrev after_rfds : Option FdSet → M ℕ
  after_rfds rfds = copy_from_user_fdset_ptr w n >>= after_wfds rfds

  do_select_asks :
      (s : Sys)
      → n ≤ fd_setsize
      → IsSetAddress s.target r
      → IsSetAddress s.target w
      → IsSetAddress s.target e
      → (rfds wfds efds : Option FdSet) × (do_select host n r w e 0 s ≡ after_time rfds wfds efds s)
        × IsAsked s.memory s.target n r rfds
        × IsAsked s.memory s.target n w wfds
        × IsAsked s.memory s.target n e efds
  unfolding do_select
  do_select_asks s small rv wv ev =
      let (rfds, r_read, r_asked) = copy_from_user_fdset_ptr-IsAsked r n s small rv in
      let (wfds, w_read, w_asked) = copy_from_user_fdset_ptr-IsAsked w n s small wv in
      let (efds, e_read, e_asked) = copy_from_user_fdset_ptr-IsAsked e n s small ev in
      let steps =
        seq_lem (copy_from_user_fdset_ptr r n) after_rfds r_read
        ∙ (seq_lem (copy_from_user_fdset_ptr w n) (after_wfds rfds) w_read
            ∙ seq_lem (copy_from_user_fdset_ptr e n) (after_efds rfds wfds) e_read) in
      (rfds, wfds, efds, steps, r_asked, w_asked, e_asked)

  -- The memory after the three sets are copied back.
  abbrev put_sets : Target → List ℕ → Memory → Memory
  put_sets t out m =
      put_set t n e (set_at out 2048)
        (put_set t n w (set_at out 1024) (put_set t n r (set_at out 0) m))

  put_sets_lem :
      (out : List ℕ) (s : Sys)
      → IsSetAddress s.target r
      → IsSetAddress s.target w
      → IsSetAddress s.target e
      → copy_back n r w e 0 out s ≡ (next tt, record s { memory = put_sets s.target out s.memory })
  unfolding copy_back
  put_sets_lem out s rv wv ev =
      let m = put_set s.target n r (set_at out 0) s.memory in
      let m' = put_set s.target n w (set_at out 1024) m in
      let third = put_back n e (set_at out 2048) >> pure tt in
      let second = put_back n w (set_at out 1024) >> third in
      seq_lem (put_back n r (set_at out 0)) (λ _. second) (put_set_lem r n (set_at out 0) s rv)
      ∙ (seq_lem (put_back n w (set_at out 1024)) (λ _. third)
            (put_set_lem w n (set_at out 1024) (record s { memory = m }) wv)
          ∙ seq_lem (put_back n e (set_at out 2048)) (λ _. pure tt)
              (put_set_lem e n (set_at out 2048) (record s { memory = m' }) ev))

  put_sets-IsBack :
      (t : Target) (out : List ℕ) (m : Memory)
      → n ≤ fd_setsize
      → AreSets t n r w e
      → IsBack n t (put_sets t out m) out r 0
        × IsBack n t (put_sets t out m) out w 1024
        × IsBack n t (put_sets t out m) out e 2048
  put_sets-IsBack t out m small sets =
      let m₁ = put_set t n r (set_at out 0) m in
      let m₂ = put_set t n w (set_at out 1024) m₁ in
      (
        λ there i below.
            put_set_other t n r e i (set_at out 2048) m₂ small sets.read_except there below
            ∙ (put_set_other t n r w i (set_at out 1024) m₁ small sets.read_write there below
                ∙ put_set-in_set t n r i (set_at out 0) m small there below),
        λ there i below.
            put_set_other t n w e i (set_at out 2048) m₂ small sets.write_except there below
            ∙ put_set-in_set t n w i (set_at out 1024) m₁ small there below,
        λ there i below. put_set-in_set t n e i (set_at out 2048) m₂ small there below,
      )

  -- The statements after the call of the host.
  abbrev after_call : List ℕ → ℕ → M ℕ
  after_call out ret = (if is_error ret then pure tt else copy_back n r w e 0 out) >> pure ret

  after_call-Selected :
      (reply : Reply) (ret : ℕ) (s : Sys)
      → n ≤ fd_setsize
      → AreSets s.target n r w e
      → s.memory ≡ reply.memory
      → Reports reply ret
      → (m : Memory) × (after_call reply.out ret s ≡ (next ret, record s { memory = m }))
        × Selected n r w e s.target reply ret m
  unfolding ◌>>=◌
  after_call-Selected reply ret s small sets same (reports_error err set value error) =
      (s.memory, rw error refl, select_failed err set value error same)
  after_call-Selected reply ret s small sets same (reports_value value plain) =
      let m = put_sets s.target reply.out s.memory in
      let (r_back, w_back, e_back) = put_sets-IsBack s.target reply.out s.memory small sets in
      let back = put_sets_lem reply.out s sets.read_valid sets.write_valid sets.except_valid in
      (
        m,
        rw plain (seq_lem (copy_back n r w e 0 reply.out) (λ _. pure ret) back),
        selected value plain r_back w_back e_back,
      )

  pub do_select-SelectEnds :
      (s : Sys)
      → n ≤ fd_setsize
      → AreSets s.target n r w e
      → ((call : HostCall) → call.function ≡ HostFn.select → Answers (host s.trace s.memory call))
      → SelectEnds host n r w e s (finish (do_select host n r w e 0 s))
  unfolding ◌>>=◌ host_call get_errno gets sys finish
  do_select-SelectEnds s small sets answers =
      let (rfds, wfds, efds, asks, r_asked, w_asked, e_asked) =
        do_select_asks s small sets.read_valid sets.write_valid sets.except_valid in
      let call = select_call n rfds wfds efds in
      let reply = host s.trace s.memory call in
      let (ret, value, reports, same, _) =
        sys-Reports host HostFn.select call.args s (answers call refl) in
      let s' = (host_call host HostFn.select call.args s).1 in
      let (m, back, result) = after_call-Selected reply ret s' small sets same reports in
      let whole =
        asks ∙ (ap (λ (flow : Flow ℕ). bind_flow flow (after_call reply.out) s') value ∙ back) in
      subst (λ (run : Flow ℕ × Sys). SelectEnds host n r w e s (finish run)) (sym whole)
        (record {
          rfds = rfds;
          wfds = wfds;
          efds = efds;
          asks_read = r_asked;
          asks_write = w_asked;
          asks_except = e_asked;
          ret = ret;
          value = refl;
          trace = refl;
          target = refl;
          result = result;
        })
