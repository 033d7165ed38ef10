-- ===== src/Mirror/Attributes/Kept.antt =====
-- The handlers of attributes and names change no inode.
use dpfs.Prelude.{ℕ, ◌≡◌, false, Option, none, some, List}
use dpfs.Fuse.Reply.{OutHeader, Stat, reply_attr}
use dpfs.Mirror.{Fuser, Conf, done, bind, pure, Statted, status}
use dpfs.Mirror.Handlers.{Answer}
use dpfs.Mirror.Sound.{Client}
use dpfs.Mirror.Lookup.Held.{IsSound, Holds}
use dpfs.Mirror.Requests.{Served}
use dpfs.Mirror.Served.{held-Leads}
use dpfs.Mirror.Attributes.{
  Valid, Call, Made, change, answer_stat, answer_change, getattr, setattr, rename, rmdir,
}

module _ (c : Conf) (h : OutHeader) (cl : Client) (s : Fuser) (sound : IsSound c cl s)
    (free : s.locked ≡ false) where
  answer_stat-Served : (got : Statted) → Served c cl (Unit {0}) (done (answer_stat c h got) s)
  unfolding answer_stat reply_attr
  answer_stat-Served (Statted.failed e) = (sound, λ m. free)
  answer_stat-Served (status st) = (sound, λ m. free)

  answer_change-Served :
      (made : Made) (got : Statted) → Served c cl (Unit {0}) (done (answer_change c h made got) s)
  unfolding answer_change
  answer_change-Served (calls, some e) got = (sound, λ m. free)
  answer_change-Served (calls, none) got = answer_stat-Served got

  pub getattr-Served :
      (ino : ℕ) (got : Statted) → Holds c cl ino → Served c cl (Unit {0}) (getattr c h ino got s)
  unfolding getattr
  getattr-Served ino got held =
      let (p, n, (leads, there, _)) = held-Leads c h cl s sound free ino held in
      rw (leads, bind, there, bind) (answer_stat-Served got)

  pub setattr-Served :
      (ino : ℕ) (v : Valid) (st : Stat) (fi : Option ℕ) (os : Call → Option ℕ) (got : Statted)
      → Holds c cl ino
      → Served c cl
          (Unit {0})
          (bind (setattr c h ino v st fi os got s) (λ (r : List Call × Answer). pure r.1))
  unfolding setattr
  setattr-Served ino v st fi os got held =
      let (p, n, (leads, there, _)) = held-Leads c h cl s sound free ino held in
      rw (leads, bind, there, bind) (answer_change-Served (change os v st fi n.fd) got)

  pub rename-Served :
      (parent newdir : ℕ) (res : Option ℕ)
      → Holds c cl parent
      → Holds c cl newdir
      → Served c cl (Unit {0}) (rename c h parent newdir res s)
  unfolding rename
  rename-Served parent newdir none held held' =
      let (p, n, (leads, there, _)) = held-Leads c h cl s sound free parent held in
      let (q, m, (leads', there', _)) = held-Leads c h cl s sound free newdir held' in
      rw (leads, bind, leads', bind, there, bind, there', bind) (sound, λ m. free)
  rename-Served parent newdir (some e) held held' =
      let (p, n, (leads, there, _)) = held-Leads c h cl s sound free parent held in
      let (q, m, (leads', there', _)) = held-Leads c h cl s sound free newdir held' in
      rw (leads, bind, leads', bind, there, bind, there', bind) (sound, λ m. free)

  pub rmdir-Served :
      (parent : ℕ) (res : Option ℕ)
      → Holds c cl parent
      → Served c cl (Unit {0}) (rmdir c h parent res s)
  unfolding rmdir
  rmdir-Served parent none held =
      let (p, n, (leads, there, _)) = held-Leads c h cl s sound free parent held in
      rw (leads, bind, there, bind) (sound, λ m. free)
  rmdir-Served parent (some e) held =
      let (p, n, (leads, there, _)) = held-Leads c h cl s sound free parent held in
      rw (leads, bind, there, bind) (sound, λ m. free)
