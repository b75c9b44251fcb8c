-- ===== src/Initfs/Util/Laws.antt =====
-- The managed write of void-initfs beside that of void-init.
use void_init.Base.{ℕ, ◌≡◌, ◌++◌, Bytes, codes, ◌>>◌, ◌>>=◌, arith, wrapping}
use void_init.Os.{Os, log_info}
use void_init.Init.Fsutil
use void_init.Managed.{with_single_trailing_newline}
use void_init.Initfs.Util.{write_managed_file}

module _ (O : Os) where
  -- The managed write of void-init is that of void-initfs with one line in the log behind it: where
  -- one fails, so does the other, with the same error and in the same state.
  pub write_managed_file-logged :
      (path rendered : Bytes) (perm : ℕ) (s : O.State)
      → Fsutil.write_managed_file O path rendered perm s
        ≡ (write_managed_file O path rendered perm >> log_info O (codes "wrote " ++ path)) s
  unfolding write_managed_file Fsutil.write_managed_file with_single_trailing_newline wrapping ◌>>=◌
  write_managed_file-logged path rendered perm s = ground arith
