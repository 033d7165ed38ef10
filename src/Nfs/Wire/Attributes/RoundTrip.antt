-- ===== src/Nfs/Wire/Attributes/RoundTrip.antt =====
-- `nfs_parse_attributes` against a description of what a server sends (RFC 8881: the attributes in
-- the order of their numbers, each in network byte order, strings padded to four bytes).
use dpfs.Prelude.{ℕ, ◌+◌, ◌-◌, ◌/◌, ◌%◌, ◌^◌, ◌<◌, ◌≤◌, ◌≡◌, List, ◌++◌, arith, length}
use dpfs.Nfs.Wire.Bytes.{htonl}
use dpfs.Nfs.Wire.Attributes.Reader.{ok, ◌>>=◌, hton64, field32-htonl, field64-hton64}
use dpfs.Nfs.Wire.Attributes.{
  FileTypes, with_type, pad_of, vnfs_blksize, FuseAttr, parse_attributes, nfs_parse_attributes,
}
use dpfs.Nfs.Wire.Attributes.Strings.{decimal, IsNumeric, encode_string, ugid_field-decimal}

-- The attributes that `standard_attributes` asks for, in the server's order.
pub record Attributes : Type 0 where
  pub type : ℕ
  pub size : ℕ
  pub fileid : ℕ
  pub mode : ℕ
  pub nlink : ℕ
  pub owner : List ℕ
  pub group : List ℕ
  pub space_used : ℕ
  pub atime : ℕ
  pub atimensec : ℕ
  pub ctime : ℕ
  pub ctimensec : ℕ
  pub mtime : ℕ
  pub mtimensec : ℕ

-- Each number fits its width, and owner and group are numeric.
pub record IsSendable (a : Attributes) : Type 0 where
  pub type : a.type < 2 ^ 32
  pub size : a.size < 2 ^ 64
  pub fileid : a.fileid < 2 ^ 64
  pub mode : a.mode < 2 ^ 32
  pub nlink : a.nlink < 2 ^ 32
  pub owner : IsNumeric a.owner
  pub group : IsNumeric a.group
  pub space_used : a.space_used < 2 ^ 64
  pub atime : a.atime < 2 ^ 64
  pub atimensec : a.atimensec < 2 ^ 32
  pub ctime : a.ctime < 2 ^ 64
  pub ctimensec : a.ctimensec < 2 ^ 32
  pub mtime : a.mtime < 2 ^ 64
  pub mtimensec : a.mtimensec < 2 ^ 32

abbrev pub encode_times : Attributes → List ℕ → List ℕ
encode_times a rest =
    hton64 a.space_used
    ++ (hton64 a.atime
        ++ (htonl a.atimensec
            ++ (hton64 a.ctime
                ++ (htonl a.ctimensec ++ (hton64 a.mtime ++ (htonl a.mtimensec ++ rest))))))

-- The bytes of the attributes, with `rest` behind them.
abbrev pub encode : Attributes → List ℕ → List ℕ
encode a rest =
    htonl a.type
    ++ (hton64 a.size
        ++ (hton64 a.fileid
            ++ (htonl a.mode
                ++ (htonl a.nlink
                    ++ encode_string a.owner (encode_string a.group (encode_times a rest))))))

-- What the host is told of them.
abbrev pub attr_of : FileTypes → Attributes → FuseAttr
attr_of types a = record {
  size = a.size;
  ino = a.fileid;
  mode = with_type types a.type a.mode;
  nlink = a.nlink;
  uid = decimal a.owner;
  gid = decimal a.group;
  atime = a.atime;
  atimensec = a.atimensec;
  ctime = a.ctime;
  ctimensec = a.ctimensec;
  mtime = a.mtime;
  mtimensec = a.mtimensec;
  blksize = vnfs_blksize;
  blocks = (a.space_used + vnfs_blksize - 1) % 2 ^ 64 / vnfs_blksize;
  rdev = 0;
}

-- The bytes of owner and group, padding included.
abbrev pub padded : List ℕ → ℕ
padded ds = length ds + pad_of (length ds)

-- The count that the parser's checks ask for: the strings themselves are not in it.
pub record IsCounted (a : Attributes) (len : ℕ) : Type 0 where
  pub fixed : 80 + pad_of (length a.owner) + pad_of (length a.group) ≤ len
  pub owner : 32 + length a.owner ≤ len
  pub group : 36 + pad_of (length a.owner) + length a.group ≤ len

parse-encode_count :
    (types : FileTypes) (a : Attributes) (rest : List ℕ) (len : ℕ)
    → IsSendable a
    → IsCounted a len
    → nfs_parse_attributes types (encode a rest) len ≡ ok (attr_of types a)
unfolding nfs_parse_attributes parse_attributes
parse-encode_count types a rest len v n =
    rw
      (
        field32-htonl a.type _ (len) v.type (omega (arith, n.fixed)),
        field64-hton64 a.size _ (len - 4) v.size (omega (arith, n.fixed)),
        field64-hton64 a.fileid _ (len - 4 - 8) v.fileid (omega (arith, n.fixed)),
        field32-htonl a.mode _ (len - 4 - 8 - 8) v.mode (omega (arith, n.fixed)),
        field32-htonl a.nlink _ (len - 4 - 8 - 8 - 4) v.nlink (omega (arith, n.fixed)),
        ugid_field-decimal a.owner _ (len - 4 - 8 - 8 - 4 - 4) v.owner (omega (arith, n.fixed))
            (omega (arith, n.owner)) (omega (arith, n.fixed)),
        ugid_field-decimal a.group _ (len - 4 - 8 - 8 - 4 - 4 - 4 - pad_of (length a.owner)) v.group
            (omega (arith, n.fixed)) (omega (arith, n.group)) (omega (arith, n.fixed)),
        ◌>>=◌,
        nfs_parse_attributes,
        parse_attributes,
      )
      (rw (
        field64-hton64 a.space_used _
            (len - 4 - 8 - 8 - 4 - 4 - 4 - pad_of (length a.owner) - 4 - pad_of (length a.group))
            v.space_used (omega (arith, n.fixed)),
        field64-hton64 a.atime _
            (len
              - 4
              - 8
              - 8
              - 4
              - 4
              - 4
              - pad_of (length a.owner)
              - 4
              - pad_of (length a.group)
              - 8)
            v.atime (omega (arith, n.fixed)),
        field32-htonl a.atimensec _
            (len
              - 4
              - 8
              - 8
              - 4
              - 4
              - 4
              - pad_of (length a.owner)
              - 4
              - pad_of (length a.group)
              - 8
              - 8)
            v.atimensec (omega (arith, n.fixed)),
        field64-hton64 a.ctime _
            (len
              - 4
              - 8
              - 8
              - 4
              - 4
              - 4
              - pad_of (length a.owner)
              - 4
              - pad_of (length a.group)
              - 8
              - 8
              - 4)
            v.ctime (omega (arith, n.fixed)),
        field32-htonl a.ctimensec _
            (len
              - 4
              - 8
              - 8
              - 4
              - 4
              - 4
              - pad_of (length a.owner)
              - 4
              - pad_of (length a.group)
              - 8
              - 8
              - 4
              - 8)
            v.ctimensec (omega (arith, n.fixed)),
        field64-hton64 a.mtime _
            (len
              - 4
              - 8
              - 8
              - 4
              - 4
              - 4
              - pad_of (length a.owner)
              - 4
              - pad_of (length a.group)
              - 8
              - 8
              - 4
              - 8
              - 4)
            v.mtime (omega (arith, n.fixed)),
        field32-htonl a.mtimensec _
            (len
              - 4
              - 8
              - 8
              - 4
              - 4
              - 4
              - pad_of (length a.owner)
              - 4
              - pad_of (length a.group)
              - 8
              - 8
              - 4
              - 8
              - 4
              - 8)
            v.mtimensec (omega (arith, n.fixed)),
        ◌>>=◌,
      ))

-- The parser gives back the attributes that a server encodes, when they are within their widths,
-- owner and group are decimal numbers of 32 bits, and `len` covers the encoding.
pub parse-encode :
    (types : FileTypes) (a : Attributes) (rest : List ℕ) (len : ℕ)
    → IsSendable a
    → 80 + padded a.owner + padded a.group ≤ len
    → nfs_parse_attributes types (encode a rest) len ≡ ok (attr_of types a)
parse-encode types a rest len v h = parse-encode_count types a rest len v (omega (arith, h))

-- The parser does not take the strings off its count: for attributes within their widths, an
-- owner of at most 48 digits and a group of at most 44, it accepts an attribute list whose stated
-- length is short by the lengths of owner and group, and reads that many bytes past its end.
pub parse-encode_overread :
    (types : FileTypes) (a : Attributes) (past : List ℕ) (len : ℕ)
    → IsSendable a
    → len + length a.owner + length a.group ≡ 80 + padded a.owner + padded a.group
    → length a.owner ≤ 48
    → length a.group ≤ 44
    → nfs_parse_attributes types (encode a past) len ≡ ok (attr_of types a)
parse-encode_overread types a past len v h o g =
    parse-encode_count types a past len v (omega (arith, h))
