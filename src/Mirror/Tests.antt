-- ===== src/Mirror/Tests.antt =====
-- A mirror of device 7 with one file, number 42, that is looked up from the root, which is number 1.
use mathlib.Core.Option.{some-injective, some-ne-none}
use dpfs.Fuse.Tests.{layout, layout-IsLayout}
use dpfs.Fuse.Iov.{Iov, iov_init}
use dpfs.Fuse.Iov.Fits.{IsWriter, init-IsWriter}
use dpfs.Mirror.Listing.{Dirent, is_dot_or_dotdot, readdir}
use dpfs.Mirror.Listing.Read.{readdir-Served}
use dpfs.Prelude.{
  sym, ap, ◌∙◌, Option, [], ◌∷◌, replicate, ℕ, ◌≡◌, ◌≢◌, refl, inl, arith, true, false, none, some,
}
use dpfs.InodeTable.{table_init, table_get, table_insert, hash, chain_find, link}
use dpfs.InodeTable.Laws.{table_get-init}
use dpfs.Fuse.Reply.{EntryParam, reply_entry, OutHeader, clear, Stat, Payload, nothing}
use dpfs.Mirror.Attributes.{Valid, Call, truncate}
use dpfs.Mirror.{
  ref_ino, ino_to_fd, ino_to_inodeptr, load, open_fd, look_at, enter_inode, lock, getsert,
  enter_found, take_ref, unlock, store, close, Fuser, Conf, Result, done, hangs, descriptor, status,
  Answers, missed, found, Looked, do_lookup, forget_one,
}
use dpfs.Mirror.Handlers.{lookup, answer_lookup, Answer}
use dpfs.Mirror.Sound.{Client}
use dpfs.Mirror.Lookup.Held.{IsSound, Holds}
use dpfs.Mirror.Lookup.Counted.{IsNew, Counted, do_lookup-Counted}
use dpfs.Mirror.Forget.{Forgotten, forget_one-Forgotten}
use dpfs.Mirror.Requests.{
  MayList, AllFresh, Request, looks, handle, give, receive, HasMemory, Served,
}
use dpfs.Mirror.Run.{fuser_init, no_client, Run, start, next, Run-Sound, Run-Served}
use dpfs.Mirror.Failures.{no_memory-hangs}

abbrev conf : Conf
conf = record {
  root_id = 1;
  src_dev = 7;
  cached = false;
  timeout = record { sec = 0; nsec = 0 };
  layout = layout;
  sizes = record {
    attr_out = 104;
    compat_attr_out = 96;
    entry_out = 128;
    compat_entry_out = 120;
    open_out = 16;
    enoent = 2;
  };
  proto_minor = 31;
  enotsup = 95;
  eio = 5;
  enomem = 12;
  einval = 22;
}

abbrev header : OutHeader
header = record { error = clear; len = 16 }

abbrev answered : OutHeader
answered = record { error = clear; len = 144 }

abbrev the_file : Stat
the_file = record {
  dev = 7;
  ino = 42;
  mode = 33188;
  nlink = 1;
  uid = 0;
  gid = 0;
  rdev = 0;
  size = 10;
  blksize = 4096;
  blocks = 8;
  atime = 0;
  mtime = 0;
  ctime = 0;
}

abbrev answers : Answers
answers = record { opened = descriptor 5; statted = status the_file; fresh = some 1000 }

abbrev begin : Fuser
begin = fuser_init 1 3

abbrev nobody : Client
nobody = no_client 3

started : Run conf header nobody begin
started = start 3

begin-IsSound : IsSound conf nobody begin
begin-IsSound = (Run-Sound conf layout-IsLayout header started).0

begin-free : begin.locked ≡ false
begin-free = (Run-Sound conf layout-IsLayout header started).1

descriptor-injective : (x y : ℕ) → descriptor x ≡ descriptor y → x ≡ y
descriptor-injective x y e = cc

new : IsNew conf nobody begin answers
unfolding fuser_init
new = record {
  new_fd = λ x e. let q : 5 ≡ x = descriptor-injective 5 x e in rw (← q) (omega arith, refl);
  new_inode =
      λ b e. let q : 1000 ≡ b = some-injective 1000 b e in (refl, (omega arith, omega arith));
  few = λ b. omega arith;
}

abbrev asked : Request
asked = looks 1 answers

abbrev state_of : Result Answer → Fuser
state_of (done a s) = s
state_of _ = begin

abbrev payload_of : Result Answer → Payload
payload_of (done a s) = a.1
payload_of _ = nothing

held-root : Holds conf nobody 1
held-root = inl refl

Run-Served_example : Served conf nobody (answers.fresh ≢ none) (handle conf header asked begin)
Run-Served_example = Run-Served conf layout-IsLayout header asked started (held-root, new)

do_lookup-Counted_example : Counted conf nobody answers (do_lookup conf 1 answers begin)
do_lookup-Counted_example =
    do_lookup-Counted conf nobody begin begin-IsSound 1 answers held-root new begin-free

abbrev buffer : Iov
buffer = iov_init (replicate 200 0 ∷ [])

buffer_lem : IsWriter buffer × (buffer.bytes_unused ≡ 200)
buffer_lem = init-IsWriter (replicate 200 0 ∷ []) (omega arith)

abbrev entry_a : Dirent
entry_a = record { ino = 42; off = 1; type = 8; name = 97 ∷ [] }

abbrev found_at : Result Looked → ℕ
found_at (done (found e) s) = e.ino
found_at _ = 0

is_elsewhere : found_at (do_lookup conf 1 answers begin) ≡ 1000
unfolding do_lookup ino_to_fd ino_to_inodeptr load open_fd look_at enter_inode lock getsert
    enter_found take_ref unlock store close fuser_init table_init table_get table_insert hash
    chain_find link
is_elsewhere = refl

elsewhere :
    (e : EntryParam) (s' : Fuser) → do_lookup conf 1 answers begin ≡ done (found e) s' → e.ino ≢ 1
elsewhere e s' did same =
    let there : 1000 ≡ e.ino = sym is_elsewhere ∙ ap found_at did in omega (arith, there, same)

may_list : MayList conf 1 nobody begin ((entry_a, answers) ∷ [])
unfolding is_dot_or_dotdot
may_list = (λ dot. tt, λ name. (new, λ e s' found_one. (elsewhere e s' found_one, tt)))

readdir-Served_example :
    Served conf nobody
      (AllFresh ((entry_a, answers) ∷ []))
      (readdir conf layout header 1 true 200 0 buffer ((entry_a, answers) ∷ []) none begin)
readdir-Served_example =
    readdir-Served conf layout layout-IsLayout header nobody begin begin-IsSound begin-free 1 true
      200 0 buffer ((entry_a, answers) ∷ []) none held-root buffer_lem.0
      (omega (arith, buffer_lem.1)) (omega arith) (λ plus. may_list)

-- A chmod and a truncate are asked for, and the second is refused.
abbrev valid : Valid
valid = record {
  mode = true;
  uid = false;
  gid = false;
  size = true;
  atime = false;
  mtime = false;
  atime_now = false;
  mtime_now = false;
}

abbrev read_only : Call → Option ℕ
read_only (truncate t n) = some 30
read_only _ = none

abbrev after_lookup : Result Answer
after_lookup = handle conf header asked begin

is_done :
    handle conf header asked begin
    ≡ done (answered, payload_of after_lookup) (state_of after_lookup)
unfolding handle lookup do_lookup ino_to_fd ino_to_inodeptr load open_fd look_at enter_inode lock
    getsert enter_found take_ref unlock store close answer_lookup fuser_init table_init table_get
    table_insert hash chain_find link reply_entry
is_done = refl

memory : HasMemory asked
memory = λ (e : answers.fresh ≡ none). some-ne-none 1000 e

abbrev holder : Client
holder = receive (give nobody asked) (payload_of after_lookup)

with_file : Run conf header holder (state_of after_lookup)
with_file = next asked answered (payload_of after_lookup) started (held-root, new) memory is_done

Run-Sound_example :
    IsSound conf holder (state_of after_lookup) × ((state_of after_lookup).locked ≡ false)
Run-Sound_example = Run-Sound conf layout-IsLayout header with_file

one_ref : holder.refs 1000 ≡ 1
unfolding handle lookup do_lookup ino_to_fd ino_to_inodeptr load open_fd look_at enter_inode lock
    getsert enter_found take_ref unlock store close answer_lookup fuser_init table_init table_get
    table_insert hash chain_find link reply_entry
one_ref = refl

forget_one-Forgotten_example :
    Forgotten conf holder 1000 1
      (state_of after_lookup)
      (forget_one conf 1000 1 (state_of after_lookup))
forget_one-Forgotten_example =
    forget_one-Forgotten conf holder (state_of after_lookup) Run-Sound_example.0 Run-Sound_example.1
      1000 1 (omega arith) (omega (arith, one_ref)) (omega (arith, one_ref))

abbrev starved : Answers
starved = record answers { fresh = none }

not_listed : table_get ref_ino begin.table 42 ≡ none
unfolding fuser_init
not_listed = table_get-init ref_ino 8192 42

no_memory-hangs_example :
    (s' : Fuser) × (do_lookup conf 1 starved begin ≡ done (missed 12) s')
    × (do_lookup conf 1 answers s' ≡ hangs)
no_memory-hangs_example =
    no_memory-hangs conf nobody begin begin-IsSound begin-free 1 starved 5 the_file held-root refl
      refl refl (omega arith) not_listed refl 1 answers 5 the_file held-root refl refl refl
      (omega arith)

abbrev away : Stat
away = record the_file { dev = 8 }

abbrev refused : Answers
refused = record answers { statted = status away }
