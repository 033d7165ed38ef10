-- ===== src/Nfs/Callbacks.antt =====
-- The callbacks of dpfs_nfs/dpfs_nfs.c, which libnfs calls with the answer of the server.
use dpfs.Prelude.{
  ℕ, ◌+◌, ◌%◌, ◌^◌, Bool, none, some, List, [], ◌∷◌, ltb, ◌==◌, if◌then◌else◌, length,
}
use dpfs.Mpool.{RingOps, mpool_free}
use dpfs.Nfs.Handle.{clone_fh}
use dpfs.Nfs.Inode.{Inode, inode_table_get, inode_table_getsert, inode_update}
use dpfs.Nfs.Session.{release_slot}
use dpfs.Nfs.Iovec.{iovec_write_buf, copied}
use dpfs.Nfs.Requests.{incr64}
use dpfs.Nfs.Wire.Attributes.{FuseAttr, nfs_parse_attributes, nfs_parse_statfs}
use dpfs.Nfs.Wire.Attributes.Reader
use dpfs.Nfs.State.{
  Headers, enomem, eremoteio, nfs_error_to_fuse_error, OutHdr, fail_with, add_len, CbData, Out,
  nothing, attr_of_file, entry, fs_status, opened, written, filled, World, Vnfs,
}

-- The status of the call, the status of the compound, or what the callback reads of the results.
pub data Answer (A : Type 0) : Type 0 where
  rpc_error : Answer A
  nfs_error : ℕ → Answer A
  nfs_ok : A → Answer A

-- An attribute list: the bytes behind its pointer, and its length.
pub record AttrList : Type 0 where
  pub bytes : List ℕ
  pub len : ℕ

pub record LookupResult : Type 0 where
  pub attrs : AttrList
  pub object : List ℕ

pub record OpenResult : Type 0 where
  pub object : List ℕ
  pub stateid : ℕ
  pub confirm : Bool

module _ (ring : RingOps) where
  -- `fault` is a read outside the answer.
  pub data Called : Type 0 where
    returned : Vnfs ring → Called
    fault : Called

  -- `mpool_free` and `dpfs_hal_async_complete`.
  unfoldable pub complete : CbData → OutHdr → Out → Vnfs ring → Vnfs ring
  complete d hdr out s = record s {
    pool = mpool_free ring s.pool d.chunk;
    completed = record { ctx = d.ctx; hdr = hdr; out = out } ∷ s.completed;
  }

  -- What every callback begins with: the slot is free again, and the two kinds of error are told.
  unfoldable pub on_answer :
      {A : Type 0} → Headers → CbData → Answer A → (A → Vnfs ring → Called) → Vnfs ring → Called
  on_answer lib d r handle s =
      let s' = record s { session = release_slot s.session d.slotid } in
      elim r [
        | rpc_error ↦ returned (complete d (fail_with d.hdr eremoteio) nothing s')
        | nfs_error code ↦
            returned (complete d (fail_with d.hdr (nfs_error_to_fuse_error lib code)) nothing s')
        | nfs_ok a ↦ handle a s'
      ]

  attr_len : Headers → CbData → ℕ
  attr_len lib d = if ltb d.proto_minor 9 then lib.compat_attr_out else lib.attr_out

  unfoldable pub getattr_cb : Headers → CbData → Answer AttrList → Vnfs ring → Called
  unfolding attr_len
  getattr_cb lib d r = on_answer lib d r λ attrs s.
      elim (nfs_parse_attributes lib.types attrs.bytes attrs.len) [
        | Reader.Parse.ok attr ↦
            returned (complete d (add_len d.hdr (attr_len lib d)) (attr_of_file attr) s)
        | Reader.Parse.short ↦ returned (complete d (fail_with d.hdr eremoteio) nothing s)
        | _ ↦ fault
      ]

  -- The length is set also when the status cannot be parsed.
  unfoldable pub statfs_cb : Headers → CbData → Answer AttrList → Vnfs ring → Called
  statfs_cb lib d r = on_answer lib d r λ attrs s.
      let len = if ltb d.proto_minor 4 then lib.compat_statfs else lib.statfs_out in
      elim (nfs_parse_statfs attrs.bytes attrs.len) [
        | Reader.Parse.ok stat ↦
            returned (complete d (record d.hdr { len = len }) (fs_status stat) s)
        | Reader.Parse.short ↦
            returned (complete d (record { error = some eremoteio; len = len }) nothing s)
        | _ ↦ fault
      ]

  -- The inode of the file, found or made, is looked up once more, and gets the handle if it has none.
  unfoldable pub enter : Headers → World → CbData → FuseAttr → List ℕ → Vnfs ring → Vnfs ring
  unfolding complete
  enter lib w d attr object s =
      let (found, inodes) = inode_table_getsert w.alloc s.inodes attr.ino in
      elim found [
        | none ↦ complete d (fail_with d.hdr enomem) nothing (record s { inodes = inodes })
        | some i ↦
            let looked =
              inode_update inodes attr.ino (λ n. record n { nlookup = incr64 n.nlookup }) in
            let hdr =
              add_len d.hdr (if ltb d.proto_minor 9 then lib.compat_entry_out else lib.entry_out) in
            if i.fh.len == 0
            then elim (clone_fh lib.nfs4_fhsize i.fh object) [
              | none ↦ complete d (fail_with d.hdr enomem) nothing (record s { inodes = looked })
              | some fh ↦
                  complete d hdr (entry attr attr.ino i.generation)
                    (record s { inodes = inode_update looked attr.ino (λ n. record n { fh = fh }) })
            ]
            else complete d hdr (entry attr attr.ino i.generation) (record s { inodes = looked })
      ]

  unfoldable pub lookup_cb : Headers → World → CbData → Answer LookupResult → Vnfs ring → Called
  unfolding enter
  lookup_cb lib w d r = on_answer lib d r λ res s.
      elim (nfs_parse_attributes lib.types res.attrs.bytes res.attrs.len) [
        | Reader.Parse.ok attr ↦ returned (enter lib w d attr res.object s)
        | Reader.Parse.short ↦ returned (complete d (fail_with d.hdr eremoteio) nothing s)
        | _ ↦ fault
      ]

  -- The handle of the open file is cloned over what the inode holds.
  unfoldable pub opened_as : Headers → CbData → Inode → OpenResult → Vnfs ring → Vnfs ring
  unfolding complete
  opened_as lib d i res s =
      let counted = inode_update s.inodes i.fileid (λ n. record n { nopen = incr64 n.nopen }) in
      elim (clone_fh lib.nfs4_fhsize i.fh_open res.object) [
        | none ↦ complete d (fail_with d.hdr enomem) nothing (record s { inodes = counted })
        | some fh ↦
            let cloned = inode_update counted i.fileid (λ n. record n { fh_open = fh }) in
            let hdr = add_len d.hdr lib.open_out in
            if res.confirm
            then complete d (fail_with hdr eremoteio) opened (record s { inodes = cloned })
            else complete d hdr opened (record s {
              inodes = inode_update cloned i.fileid (λ n. record n { open_stateid = res.stateid });
            })
      ]

  -- The inode is the one that the handler put into the callback data.
  unfoldable pub vopen_cb : Headers → (inode : ℕ) → CbData → Answer OpenResult → Vnfs ring → Called
  unfolding opened_as
  vopen_cb lib inode d r = on_answer lib d r λ res s. elim (inode_table_get s.inodes inode) [
    | none ↦ fault
    | some i ↦ returned (opened_as lib d i res s)
  ]

  unfoldable pub release_cb :
      Headers → (inode : ℕ) → CbData → Answer (Unit {0}) → Vnfs ring → Called
  release_cb lib inode d r = on_answer lib d r λ _ s. returned (
      complete d d.hdr nothing (record s {
        inodes =
            inode_update s.inodes inode
              (λ n. record n { fh_open = record { len = 0; val = n.fh_open.val } });
      }))

  unfoldable pub vfsync_cb : Headers → CbData → Answer (Unit {0}) → Vnfs ring → Called
  vfsync_cb lib d r = on_answer lib d r λ _ s. returned (complete d d.hdr nothing s)

  -- The counts of the WRITE results, added in 32 bits.
  written_loop : ℕ → List ℕ → ℕ
  written_loop total [] = total
  written_loop total (count ∷ counts) = written_loop ((total + count) % 2 ^ 32) counts

  unfoldable pub vwrite_cb : Headers → CbData → Answer (List ℕ) → Vnfs ring → Called
  unfolding written_loop
  vwrite_cb lib d r = on_answer lib d r λ counts s.
      returned (complete d (add_len d.hdr lib.write_out) (written (written_loop 0 counts)) s)

  -- The data of the READ result go to the vectors of the host, if there are any.
  unfoldable pub vread_cb : Headers → (iov : List ℕ) → CbData → Answer (List ℕ) → Vnfs ring → Called
  vread_cb lib iov d r = on_answer lib d r λ bytes s.
      if ltb 0 (length iov)
      then elim (iovec_write_buf iov bytes) [
        | none ↦ fault
        | some ws ↦ returned (complete d (add_len d.hdr (length (copied ws))) (filled ws) s)
      ]
      else returned (complete d d.hdr nothing s)
