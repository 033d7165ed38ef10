-- ===== src/Nfs/Wire/Attributes/StatfsTrip.antt =====
-- `nfs_parse_statfs` against a description of what a server sends (RFC 8881: the attributes in the
-- order of their numbers, each in network byte order).
use dpfs.Prelude.{ℕ, ◌-◌, ◌/◌, ◌^◌, ◌<◌, ◌≤◌, ◌≡◌, List, ◌++◌, arith}
use dpfs.Nfs.Wire.Bytes.{htonl}
use dpfs.Nfs.Wire.Attributes.Reader.{ok, ◌>>=◌, hton64, field32-htonl, field64_ntoh-hton64}
use dpfs.Nfs.Wire.Attributes.{vnfs_blksize, parse_statfs, nfs_parse_statfs}

-- The attributes that `statfs_attributes` asks for, in the server's order.
pub record Statfs : Type 0 where
  pub files_free : ℕ
  pub files_total : ℕ
  pub maxname : ℕ
  pub space_avail : ℕ
  pub space_free : ℕ
  pub space_total : ℕ

pub record IsStatfs (a : Statfs) : Type 0 where
  pub files_free : a.files_free < 2 ^ 64
  pub files_total : a.files_total < 2 ^ 64
  pub maxname : a.maxname < 2 ^ 32
  pub space_avail : a.space_avail < 2 ^ 64
  pub space_free : a.space_free < 2 ^ 64
  pub space_total : a.space_total < 2 ^ 64

abbrev pub encode_statfs : Statfs → List ℕ → List ℕ
encode_statfs a rest =
    hton64 a.files_free
    ++ (hton64 a.files_total
        ++ (htonl a.maxname
            ++ (hton64 a.space_avail ++ (hton64 a.space_free ++ (hton64 a.space_total ++ rest)))))

-- `nfs_parse_statfs` gives back what a server encodes, with the spaces in blocks of 8192 bytes,
-- when `len` covers the 44 bytes.
pub parse_statfs-encode :
    (a : Statfs) (rest : List ℕ) (len : ℕ)
    → IsStatfs a
    → 44 ≤ len
    → nfs_parse_statfs (encode_statfs a rest) len
      ≡ ok (record {
        bsize = vnfs_blksize;
        frsize = vnfs_blksize;
        ffree = a.files_free;
        files = a.files_total;
        namelen = a.maxname;
        bavail = a.space_avail / vnfs_blksize;
        bfree = a.space_free / vnfs_blksize;
        blocks = a.space_total / vnfs_blksize;
      })
unfolding nfs_parse_statfs parse_statfs
parse_statfs-encode a rest len v n = rw (
  field64_ntoh-hton64 a.files_free _ len v.files_free (omega arith),
  field64_ntoh-hton64 a.files_total _ (len - 8) v.files_total (omega arith),
  field32-htonl a.maxname _ (len - 8 - 8) v.maxname (omega arith),
  field64_ntoh-hton64 a.space_avail _ (len - 8 - 8 - 4) v.space_avail (omega arith),
  field64_ntoh-hton64 a.space_free _ (len - 8 - 8 - 4 - 8) v.space_free (omega arith),
  field64_ntoh-hton64 a.space_total _ (len - 8 - 8 - 4 - 8 - 8) v.space_total (omega arith),
  ◌>>=◌,
  nfs_parse_statfs,
  parse_statfs,
)
