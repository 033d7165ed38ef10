-- ===== src/Nfs/Handle.antt =====
-- File handles (`struct vnfs_fh4` and `nfs4_clone_fh` of dpfs_nfs/nfs_v4.h and nfs_v4.c). The bound
-- NFS4_FHSIZE is a constant of libnfs, and so an argument. Bytes are numbers.
use dpfs.Prelude.{ℕ, ◌++◌, Option, none, some, List, ltb, if◌then◌else◌, take, drop, length}

-- `len` counts the bytes of `val` that belong to the handle; 0 stands for no handle.
pub record Fh : Type 0 where
  pub len : ℕ
  pub val : List ℕ

-- What calloc leaves: no handle.
abbrev pub no_fh : List ℕ → Fh
no_fh zeros = record { len = 0; val = zeros }

-- `none` is -ENOMEM, for a source that is longer than the buffer.
unfoldable pub clone_fh : ℕ → Fh → List ℕ → Option Fh
clone_fh fhsize dst src =
    if ltb fhsize (length src)
    then none
    else some
        (record { len = length src; val = take (length src) src ++ drop (length src) dst.val })

-- The bytes that a request with this handle carries.
abbrev pub fh_bytes : Fh → List ℕ
fh_bytes fh = take fh.len fh.val
