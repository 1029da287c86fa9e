-- ===== src/Errno.antt =====
-- The translation of the host's error numbers, in proj/sparc-linux/syscall.c.
pub mod Host
pub mod Target
pub mod Table
use sparcy.Base.{ℕ, List, [], ◌∷◌, ◌==◌, if◌then◌else◌, zero, suc, ◌+◌}
use Host
use Target

-- A table that C writes by designated initialisers: the entries listed, and 0 elsewhere.
abbrev pub entry : List (ℕ × ℕ) → ℕ → ℕ
entry [] i = 0
entry ((j, v) ∷ l) i = if i == j then v else entry l i

abbrev pub errno_table_size : ℕ
errno_table_size = 1200

unfoldable pub host_to_target_errno_table : List (ℕ × ℕ)
host_to_target_errno_table =
    (Host.eidrm, Target.eidrm)
    ∷ (Host.echrng, Target.echrng)
    ∷ (Host.el2nsync, Target.el2nsync)
    ∷ (Host.el3hlt, Target.el3hlt)
    ∷ (Host.el3rst, Target.el3rst)
    ∷ (Host.elnrng, Target.elnrng)
    ∷ (Host.eunatch, Target.eunatch)
    ∷ (Host.enocsi, Target.enocsi)
    ∷ (Host.el2hlt, Target.el2hlt)
    ∷ (Host.edeadlk, Target.edeadlk)
    ∷ (Host.enolck, Target.enolck)
    ∷ (Host.ebade, Target.ebade)
    ∷ (Host.ebadr, Target.ebadr)
    ∷ (Host.exfull, Target.exfull)
    ∷ (Host.enoano, Target.enoano)
    ∷ (Host.ebadrqc, Target.ebadrqc)
    ∷ (Host.ebadslt, Target.ebadslt)
    ∷ (Host.ebfont, Target.ebfont)
    ∷ (Host.enostr, Target.enostr)
    ∷ (Host.enodata, Target.enodata)
    ∷ (Host.etime, Target.etime)
    ∷ (Host.enosr, Target.enosr)
    ∷ (Host.enonet, Target.enonet)
    ∷ (Host.enopkg, Target.enopkg)
    ∷ (Host.eremote, Target.eremote)
    ∷ (Host.enolink, Target.enolink)
    ∷ (Host.eadv, Target.eadv)
    ∷ (Host.esrmnt, Target.esrmnt)
    ∷ (Host.ecomm, Target.ecomm)
    ∷ (Host.eproto, Target.eproto)
    ∷ (Host.edotdot, Target.edotdot)
    ∷ (Host.emultihop, Target.emultihop)
    ∷ (Host.ebadmsg, Target.ebadmsg)
    ∷ (Host.enametoolong, Target.enametoolong)
    ∷ (Host.eoverflow, Target.eoverflow)
    ∷ (Host.enotuniq, Target.enotuniq)
    ∷ (Host.ebadfd, Target.ebadfd)
    ∷ (Host.eremchg, Target.eremchg)
    ∷ (Host.elibacc, Target.elibacc)
    ∷ (Host.elibbad, Target.elibbad)
    ∷ (Host.elibscn, Target.elibscn)
    ∷ (Host.elibmax, Target.elibmax)
    ∷ (Host.elibexec, Target.elibexec)
    ∷ (Host.eilseq, Target.eilseq)
    ∷ (Host.enosys, Target.enosys)
    ∷ (Host.eloop, Target.eloop)
    ∷ (Host.erestart, Target.erestart)
    ∷ (Host.estrpipe, Target.estrpipe)
    ∷ (Host.enotempty, Target.enotempty)
    ∷ (Host.eusers, Target.eusers)
    ∷ (Host.enotsock, Target.enotsock)
    ∷ (Host.edestaddrreq, Target.edestaddrreq)
    ∷ (Host.emsgsize, Target.emsgsize)
    ∷ (Host.eprototype, Target.eprototype)
    ∷ (Host.enoprotoopt, Target.enoprotoopt)
    ∷ (Host.eprotonosupport, Target.eprotonosupport)
    ∷ (Host.esocktnosupport, Target.esocktnosupport)
    ∷ (Host.eopnotsupp, Target.eopnotsupp)
    ∷ (Host.epfnosupport, Target.epfnosupport)
    ∷ (Host.eafnosupport, Target.eafnosupport)
    ∷ (Host.eaddrinuse, Target.eaddrinuse)
    ∷ (Host.eaddrnotavail, Target.eaddrnotavail)
    ∷ (Host.enetdown, Target.enetdown)
    ∷ (Host.enetunreach, Target.enetunreach)
    ∷ (Host.enetreset, Target.enetreset)
    ∷ (Host.econnaborted, Target.econnaborted)
    ∷ (Host.econnreset, Target.econnreset)
    ∷ (Host.enobufs, Target.enobufs)
    ∷ (Host.eisconn, Target.eisconn)
    ∷ (Host.enotconn, Target.enotconn)
    ∷ (Host.euclean, Target.euclean)
    ∷ (Host.enotnam, Target.enotnam)
    ∷ (Host.enavail, Target.enavail)
    ∷ (Host.eisnam, Target.eisnam)
    ∷ (Host.eremoteio, Target.eremoteio)
    ∷ (Host.eshutdown, Target.eshutdown)
    ∷ (Host.etoomanyrefs, Target.etoomanyrefs)
    ∷ (Host.etimedout, Target.etimedout)
    ∷ (Host.econnrefused, Target.econnrefused)
    ∷ (Host.ehostdown, Target.ehostdown)
    ∷ (Host.ehostunreach, Target.ehostunreach)
    ∷ (Host.ealready, Target.ealready)
    ∷ (Host.einprogress, Target.einprogress)
    ∷ (Host.estale, Target.estale)
    ∷ (Host.ecanceled, Target.ecanceled)
    ∷ (Host.enomedium, Target.enomedium)
    ∷ (Host.emediumtype, Target.emediumtype)
    ∷ (Host.enokey, Target.enokey)
    ∷ (Host.ekeyexpired, Target.ekeyexpired)
    ∷ (Host.ekeyrevoked, Target.ekeyrevoked)
    ∷ (Host.ekeyrejected, Target.ekeyrejected)
    ∷ (Host.eownerdead, Target.eownerdead)
    ∷ (Host.enotrecoverable, Target.enotrecoverable)
    ∷ []

-- Errors that the table leaves at 0 keep their number. This is so for errors below the table's size: from
-- there on the source reads past the table, and what it finds is not modelled.
unfoldable pub host_to_target_errno : ℕ → ℕ
unfolding host_to_target_errno_table
host_to_target_errno err = let t = entry host_to_target_errno_table err in if t == 0 then err else t

-- The loop of `sl_init` that fills `target_to_host_errno_table`, with `n` rounds left at `i`.
unfoldable pub fill_target_to_host : ℕ → ℕ → (ℕ → ℕ) → ℕ → ℕ
unfolding host_to_target_errno_table
fill_target_to_host zero i table = table
fill_target_to_host (suc n) i table =
    fill_target_to_host n (i + 1)
      (λ e. if e == entry host_to_target_errno_table i then i else table e)

unfoldable pub target_to_host_errno_table : ℕ → ℕ
unfolding fill_target_to_host
target_to_host_errno_table = fill_target_to_host errno_table_size 0 (λ e. 0)
