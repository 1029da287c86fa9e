-- ===== src/Guest/Access.antt =====
-- Accesses to guest structures: `__get_user`, `__put_user`, `get_user` and `put_user` of
-- proj/sparc-linux/target-sparc.h, and fields that syscall.c converts by `tswapal`.
use sparcy.Base.{ℕ, ◌+◌, List, [], ◌∷◌, u32}
use sparcy.Memory.{stw_be_p, stl_be_p, stq_be_p, ldl_be_p, stl_he_p, ldl_he_p, tswapal}
use sparcy.Guest.Run.{M, pure, gets, write_memory, lock_user, ◌>>=◌, ◌>>◌}

-- `__get_user` and `__put_user` at a host address, by the width of the field
unfoldable pub get_long : ℕ → M ℕ
unfolding gets
get_long p = gets (λ s. ldl_be_p s.memory p)

unfoldable pub put_half : ℕ → ℕ → M (Unit {0})
unfolding write_memory
put_half p x = write_memory (λ m. stw_be_p m p x)

unfoldable pub put_long : ℕ → ℕ → M (Unit {0})
unfolding write_memory
put_long p x = write_memory (λ m. stl_be_p m p x)

unfoldable pub put_quad : ℕ → ℕ → M (Unit {0})
unfolding write_memory
put_quad p x = write_memory (λ m. stq_be_p m p x)

-- `tswapal(*p)` and `*p = tswapal(x)`
unfoldable pub swap_load : ℕ → M ℕ
unfolding gets
swap_load p = gets (λ s. tswapal (ldl_he_p s.memory p))

unfoldable pub swap_store : ℕ → ℕ → M (Unit {0})
unfolding write_memory
swap_store p x = write_memory (λ m. stl_he_p m p (tswapal (u32 x)))

-- Such stores to consecutive abi_long fields.
unfoldable pub swap_stores : ℕ → List ℕ → M (Unit {0})
unfolding swap_store pure ◌>>=◌
swap_stores p [] = pure tt
swap_stores p (x ∷ xs) = swap_store p x >> swap_stores (p + 4) xs

-- The same at guest addresses, where a bad address makes the caller jump to `efault`.
unfoldable pub get_user_sal : ℕ → M ℕ
unfolding lock_user get_long ◌>>=◌
get_user_sal gaddr = do p ← lock_user gaddr; get_long p

unfoldable pub put_user_ual : ℕ → ℕ → M (Unit {0})
unfolding lock_user put_long ◌>>=◌
put_user_ual x gaddr = do p ← lock_user gaddr; put_long p x

unfoldable pub put_user_u16 : ℕ → ℕ → M (Unit {0})
unfolding lock_user put_half ◌>>=◌
put_user_u16 x gaddr = do p ← lock_user gaddr; put_half p x

unfoldable pub put_user_s64 : ℕ → ℕ → M (Unit {0})
unfolding lock_user put_quad ◌>>=◌
put_user_s64 x gaddr = do p ← lock_user gaddr; put_quad p x
