-- ===== src/Nfs/Connect/Run/Invariant.antt =====
-- What holds at every moment of the handshakes.
use mathlib.Core.Path.{subst}
use dpfs.Prelude.{
  ℕ, ◌^◌, ◌<◌, ◌≡◌, ◌∙◌, inl, inr, refl, sym, ap, arith, List, [], ◌∷◌, ◌++◌, length-replicate,
  get_or-replicate,
}
use dpfs.InodeTable.Laws.{table_get-init}
use dpfs.InodeTable.Invariant.{init-IsTable}
use dpfs.Nfs.Inode.{fileid_of, inode_table_get, inode_table_size}
use dpfs.Nfs.Requests.{fuse_root_id}
use dpfs.Nfs.Connect.Booting.{Sent, Boot, BootWorld, Outcome, went, zeroed_conn}
use dpfs.Nfs.Connect.Run.{Protocol, ReplyTo, boot_callback, main_state, Boots, begun, told}
use dpfs.Nfs.Connect.Run.Steps.{
  Idle, IsBooting, NoRoot, Ready, Based, Ends, Ready-sent, same_Based, unready-ne, init-IsBooting,
}
use dpfs.Nfs.Connect.Run.Callbacks.{callback-Ends}

pub alone :
    {A : Type 0} (before after : List A) (r x : A)
    → before ++ r ∷ after ≡ x ∷ []
    → (before ++ after ≡ []) × (r ≡ x)
alone [] [] r x e = (refl, cc)
alone [] (y ∷ after) r x e = cc
alone (y ∷ []) after r x e = cc
alone (y ∷ z ∷ before) after r x e = cc

Ends-went : (P : Boot → Type 0) (o : Outcome) (b : Boot) → Ends P o → o ≡ went b → P b
Ends-went P o b h e = subst (Ends P) e h

resent-Idle :
    (b : Boot) (sent : List Sent)
    → Based b
    → b.conn_cntr < b.nthreads
    → sent ≡ []
    → Idle (record b { sent = sent })
resent-Idle b sent h lt e = record { based = same_Based b sent h; current_is = lt; quiet = e }

pub empty_middle : {A : Type 0} (before after : List A) (r : A) → before ++ r ∷ after ≡ [] → ⊥
empty_middle [] after r e = cc
empty_middle (x ∷ before) after r e = cc

told-IsBooting :
    (lib : Protocol) (w : BootWorld) (b b' : Boot) (before after : List Sent) (r : Sent)
    (reply : ReplyTo r.stage)
    → IsBooting b
    → b.sent ≡ before ++ r ∷ after
    → boot_callback lib w r.stage reply (record b { sent = before ++ after }) ≡ went b'
    → IsBooting b'
told-IsBooting lib w b b' before after r reply h e ran = elim h.flying [
  | inl quiet ↦ absurd (empty_middle before after r (sym e ∙ quiet))
  | inr (stage, ops, one, lt, ready) ↦
      let (gone, is) = alone before after r _ (sym e ∙ one) in
      let rest : Boot = record b { sent = before ++ after } in
      let ready' : Ready r.stage rest =
        subst (λ x. Ready x.stage rest) (sym is) (Ready-sent stage b (before ++ after) ready) in
      Ends-went IsBooting _ b'
        (callback-Ends lib w r.stage reply rest (resent-Idle b (before ++ after) h.based lt gone)
          ready')
        ran
]

main-Idle :
    (nthreads : ℕ) (export_path : List ℕ)
    → 0 < nthreads
    → nthreads < 2 ^ 16
    → Idle (main_state nthreads export_path)
unfolding main_state
main-Idle nthreads export_path pos small = record {
  based = record {
    small = small;
    many = length-replicate nthreads (zeroed_conn 0);
    bound = omega arith;
    up = λ i h. absurd (omega arith);
    down = λ i h e.
        unready-ne (sym (ap (λ c. c.state) (get_or-replicate nthreads i (zeroed_conn 0))) ∙ e);
    table = init-IsTable fileid_of inode_table_size (omega arith);
    rooted = λ h. absurd (omega arith);
  };
  current_is = pos;
  quiet = refl;
}

main-NoRoot : (nthreads : ℕ) (export_path : List ℕ) → NoRoot (main_state nthreads export_path)
unfolding main_state inode_table_get
main-NoRoot nthreads export_path = table_get-init fileid_of inode_table_size fuse_root_id

-- With at least one polling thread and fewer than 2 ^ 16, whatever libnfs and the server answer and
-- in whatever order, in every state that is reached before an answer makes the code read or write
-- past its memory (as a slot that the session does not have): a connection is established exactly
-- when the counter has passed it, the counter is at most the number of threads, the table of the
-- inodes is well formed, the root is in it from the first connection on, and at most one request of
-- a handshake is on its way, on the connection that the counter names.
pub Boots-IsBooting :
    (lib : Protocol) (nthreads : ℕ) (export_path : List ℕ) (b : Boot)
    → 0 < nthreads
    → nthreads < 2 ^ 16
    → Boots lib (main_state nthreads export_path) b
    → IsBooting b
Boots-IsBooting lib nthreads export_path b pos small (begun w) =
    init-IsBooting w (main_state nthreads export_path) (main-Idle nthreads export_path pos small)
      (λ e. main-NoRoot nthreads export_path)
Boots-IsBooting lib nthreads export_path b pos small
      (told {b = b0} w before after r reply run e ran) =
    told-IsBooting lib w b0 b before after r reply
      (Boots-IsBooting lib nthreads export_path b0 pos small run) e ran
