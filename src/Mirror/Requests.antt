-- ===== src/Mirror/Requests.antt =====
-- Requests one after the other: what the kernel asks for, what it is given, and what it may ask for.
use dpfs.Prelude.{
  ℕ, ◌^◌, Bool, true, false, ◌-◌, ◌<◌, ◌≤◌, ◌≡◌, ◌≢◌, true, false, Option, none, List, [], ◌∷◌,
  ◌==◌, if◌then◌else◌,
}
use dpfs.Fuse.Iov.{Iov}
use dpfs.Fuse.Iov.Fits.{IsWriter}
use dpfs.Mirror.Listing.{Dirent, is_dot_or_dotdot, readdir}
use dpfs.Fuse.Reply.{
  Stat, EntryParam, OutHeader, FileInfo, Payload, nothing, attr, entry, opened, created, listed,
}
use dpfs.Mirror.{
  Statted, ◌>>=◌, found, do_lookup, Fuser, Conf, M, Result, done, fault, exits, hangs, pure, ◌>>◌,
  Opened, descriptor, Answers,
}
use dpfs.Mirror.Handlers.{
  Answer, Kind, lookup, create, make_something, open_file, release, batch_forget, unlink,
}
use dpfs.Mirror.Attributes.{Valid, Call, getattr, setattr, rename, rmdir}
use dpfs.Mirror.Sound.{Client, set_refs}
use dpfs.Mirror.Lookup.Held.{IsSound, Holds, gain}
use dpfs.Mirror.Lookup.Counted.{IsNew}
use dpfs.Mirror.Clients.{hand}

-- A request, with what the operating system gives its handler. A FORGET is a BATCH_FORGET of one inode.
pub data Request : Type 0 where
  looks : ℕ → Answers → Request
  creates : ℕ → Opened → Answers → Request
  makes : ℕ → Kind → Option ℕ → Answers → Request
  opens : ℕ → Opened → FileInfo → Request
  releases : ℕ → ℕ → Request
  forgets : List (ℕ × ℕ) → Request
  unlinks : ℕ → Answers → Option ℕ → Request
  lists : ℕ → Bool → ℕ → ℕ → Iov → List (Dirent × Answers) → Option ℕ → Request
  gets : ℕ → Statted → Request
  sets : ℕ → Valid → Stat → Option ℕ → (Call → Option ℕ) → Statted → Request
  moves : ℕ → ℕ → Option ℕ → Request
  removes : ℕ → Option ℕ → Request

-- A FORGET has no answer, which is an untouched header here.
unfoldable pub handle : Conf → OutHeader → Request → M Answer
handle c h (looks parent a) = lookup c h parent a
handle c h (creates parent o a) = create c h parent o a
handle c h (makes parent kind res a) = make_something c h parent kind res a
handle c h (opens ino o garbage) = open_file c h ino o garbage
handle c h (releases ino fh) = release c h ino fh
handle c h (forgets all) = batch_forget c h all >> pure (h, nothing)
handle c h (unlinks parent a res) = unlink c h parent a res
handle c h (lists ino plus size off iov all last) =
    readdir c c.layout h ino plus size off iov all last
handle c h (gets ino got) = getattr c h ino got
handle c h (sets ino v st fi os got) =
    setattr c h ino v st fi os got >>= λ (r : List Call × Answer). pure r.1
handle c h (moves parent newdir res) = rename c h parent newdir res
handle c h (removes parent res) = rmdir c h parent res

abbrev pub forget_all : Client → List (ℕ × ℕ) → Client
forget_all cl [] = cl
forget_all cl ((ino, n) ∷ all) = forget_all (set_refs cl ino (cl.refs ino - n)) all

-- What the kernel gives up with a request.
abbrev pub give : Client → Request → Client
give cl (releases ino fh) = hand cl fh false
give cl (forgets all) = forget_all cl all
give cl _ = cl

-- One more reference to each of some inodes.
abbrev pub gain_all : Client → List ℕ → Client
gain_all cl [] = cl
gain_all cl (a ∷ all) = gain_all (gain cl a) all

-- What it is given with an answer: an entry is a reference to the inode, and an open file a descriptor.
abbrev pub receive : Client → Payload → Client
receive cl nothing = cl
receive cl (attr timeout a) = cl
receive cl (entry e) = if e.nodeid == 0 then cl else gain cl e.nodeid
receive cl (opened o) = hand cl o.fh true
receive cl (created e o) = hand (gain cl e.nodeid) o.fh true
receive cl (listed iov all) = gain_all cl all

-- A new descriptor from an open.
abbrev pub IsNewFd : Fuser → Opened → Type 0
IsNewFd s (Opened.failed e) = Unit
IsNewFd s (descriptor x) = (0 < x) × (s.is_open x ≡ false)

abbrev pub MayForget : Conf → Client → List (ℕ × ℕ) → Type 0
MayForget c cl [] = Unit
MayForget c cl ((ino, n) ∷ all) =
    (ino ≢ c.root_id)
    × (0 < cl.refs ino)
    × (n ≤ cl.refs ino)
    × MayForget c (set_refs cl ino (cl.refs ino - n)) all

-- The state behind an open, where a lookup begins.
abbrev pub with_open : Fuser → Opened → Fuser
with_open s (Opened.failed e) = s
with_open s (descriptor x) = record s { is_open = λ y. if x == y then true else s.is_open y }

-- Each lookup of the loop is given what is new, and none leads to the directory itself.
abbrev pub MayList : Conf → ℕ → Client → Fuser → List (Dirent × Answers) → Type 0
MayList c parent cl s [] = Unit
MayList c parent cl s ((d, a) ∷ more) =
    (is_dot_or_dotdot d.name ≡ true → MayList c parent cl s more)
    × (is_dot_or_dotdot d.name ≡ false
        → IsNew c cl s a
          × ((e : EntryParam) (s' : Fuser)
              → do_lookup c parent a s ≡ done (found e) s'
              → (e.ino ≢ parent) × MayList c parent (gain cl e.ino) s' more))

abbrev pub AllFresh : List (Dirent × Answers) → Type 0
AllFresh [] = Unit
AllFresh ((d, a) ∷ more) = (a.fresh ≢ none) × AllFresh more

-- The kernel names inodes that it holds, and forgets and closes what it has.
abbrev pub Legal : Conf → Client → Fuser → Request → Type 0
Legal c cl s (looks parent a) = Holds c cl parent × IsNew c cl s a
Legal c cl s (creates parent o a) = Holds c cl parent × IsNewFd s o × IsNew c cl (with_open s o) a
Legal c cl s (makes parent kind res a) = Holds c cl parent × IsNew c cl s a
Legal c cl s (opens ino o garbage) = Holds c cl ino × IsNewFd s o
Legal c cl s (releases ino fh) = Holds c cl ino × (cl.handles fh ≡ true)
Legal c cl s (forgets all) = MayForget c cl all
Legal c cl s (unlinks parent a res) = Holds c cl parent × IsNew c cl s a
Legal c cl s (lists ino plus size off iov all last) =
    Holds c cl ino
    × IsWriter iov
    × (iov.bytes_unused < 2 ^ 32)
    × (size < 2 ^ 32)
    × (plus ≡ true → MayList c ino cl s all)
Legal c cl s (gets ino got) = Holds c cl ino
Legal c cl s (sets ino v st fi os got) = Holds c cl ino
Legal c cl s (moves parent newdir res) = Holds c cl parent × Holds c cl newdir
Legal c cl s (removes parent res) = Holds c cl parent

-- Whether the allocator has memory for the lookup.
abbrev pub HasMemory : Request → Type 0
HasMemory (looks parent a) = a.fresh ≢ none
HasMemory (creates parent o a) = a.fresh ≢ none
HasMemory (makes parent kind res a) = a.fresh ≢ none
HasMemory (unlinks parent a res) = a.fresh ≢ none
HasMemory (lists ino plus size off iov all last) = AllFresh all
HasMemory _ = Unit

-- The request is served: the inodes are sound with what the kernel then holds, and the mutex is free
-- unless memory was missing.
abbrev pub Served : Conf → Client → Type 0 → Result Answer → Type 0
Served c cl memory (done (h, p) s') = IsSound c (receive cl p) s' × (memory → s'.locked ≡ false)
Served c cl memory fault = ⊥
Served c cl memory exits = ⊥
Served c cl memory hangs = ⊥
