-- ===== src/Nfs/Tests/WireTests.antt =====
-- Attribute lists that a server may send.
use dpfs.Prelude.{◌≡◌, refl, [], ◌∷◌, arith}
use dpfs.Nfs.Wire.Attributes.{FileTypes, Kstatfs, nfs_parse_attributes, nfs_parse_statfs}
use dpfs.Nfs.Wire.Attributes.Reader.{ok}
use dpfs.Nfs.Wire.Attributes.RoundTrip.{
  Attributes, IsSendable, encode, attr_of, parse-encode, parse-encode_overread,
}
use dpfs.Nfs.Wire.Attributes.StatfsTrip.{Statfs, IsStatfs, encode_statfs, parse_statfs-encode}
use dpfs.Nfs.Wire.Attributes.Strings.{IsNumeric}

abbrev pub file_types : FileTypes
file_types = record {
  nf4reg = 1;
  nf4dir = 2;
  nf4blk = 3;
  nf4chr = 4;
  nf4lnk = 5;
  nf4sock = 6;
  nf4fifo = 7;
  s_ifreg = 32768;
  s_ifdir = 16384;
  s_ifblk = 24576;
  s_ifchr = 8192;
  s_iflnk = 40960;
  s_ifsock = 49152;
  s_ififo = 4096;
}

-- A regular file of user 10 and group 0.
abbrev a_file : Attributes
a_file = record {
  type = 1;
  size = 5000;
  fileid = 7;
  mode = 420;
  nlink = 1;
  owner = 49 ∷ 48 ∷ [];
  group = 48 ∷ [];
  space_used = 8192;
  atime = 100;
  atimensec = 1;
  ctime = 200;
  ctimensec = 2;
  mtime = 300;
  mtimensec = 3;
}

owner-IsNumeric : IsNumeric a_file.owner
owner-IsNumeric = record { digits = (refl, (refl, tt)); fits = omega arith; short = omega arith }

group-IsNumeric : IsNumeric a_file.group
group-IsNumeric = record { digits = (refl, tt); fits = omega arith; short = omega arith }

a_file-IsSendable : IsSendable a_file
a_file-IsSendable = record {
  type = omega arith;
  size = omega arith;
  fileid = omega arith;
  mode = omega arith;
  nlink = omega arith;
  owner = owner-IsNumeric;
  group = group-IsNumeric;
  space_used = omega arith;
  atime = omega arith;
  atimensec = omega arith;
  ctime = omega arith;
  ctimensec = omega arith;
  mtime = omega arith;
  mtimensec = omega arith;
}

parse-encode_example :
    nfs_parse_attributes file_types (encode a_file []) 88 ≡ ok (attr_of file_types a_file)
parse-encode_example = parse-encode file_types a_file [] 88 a_file-IsSendable (omega arith)

-- Three bytes short.
parse-encode_overread_example :
    nfs_parse_attributes file_types (encode a_file []) 85 ≡ ok (attr_of file_types a_file)
parse-encode_overread_example =
    parse-encode_overread file_types a_file [] 85 a_file-IsSendable (omega arith) (omega arith)
      (omega arith)

abbrev a_disk : Statfs
a_disk = record {
  files_free = 10;
  files_total = 20;
  maxname = 255;
  space_avail = 8192;
  space_free = 16384;
  space_total = 81920;
}

a_disk-IsStatfs : IsStatfs a_disk
a_disk-IsStatfs = record {
  files_free = omega arith;
  files_total = omega arith;
  maxname = omega arith;
  space_avail = omega arith;
  space_free = omega arith;
  space_total = omega arith;
}

abbrev disk_status : Kstatfs
disk_status = record {
  bsize = 8192;
  frsize = 8192;
  ffree = 10;
  files = 20;
  namelen = 255;
  bavail = 1;
  bfree = 2;
  blocks = 10;
}

parse_statfs-encode_example : nfs_parse_statfs (encode_statfs a_disk []) 44 ≡ ok disk_status
parse_statfs-encode_example = parse_statfs-encode a_disk [] 44 a_disk-IsStatfs (omega arith)
