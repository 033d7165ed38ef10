-- ===== src/Nfs/Connect/Run/Main.antt =====
-- dpfs_nfs_main of dpfs_nfs/dpfs_nfs.c, up to the call of dpfs_fuse_loop. What it does when one of its
-- steps fails is to free what it has and return, which is `none`.
use mathlib.Core.Path.{subst}
use mathlib.Core.Bool.{true, false}
use dpfs.Prelude.{
  ℕ, ◌≡◌, Bool, Option, none, some, List, [], ◌∷◌, ◌==◌, if◌then◌else◌, Bool-cases, inl, inr,
}
use dpfs.Nfs.Inode.{ready, enomem, failed, inode_table_init}
use dpfs.Nfs.Connect.{init_connections}
use dpfs.Nfs.Connect.Export.{slash}
use dpfs.Nfs.Connect.Booting.{Boot, BootWorld}
use dpfs.Nfs.Connect.Run.{Protocol, main_state, Boots, begun}

-- Which of the allocations and of the calls succeed: of the struct, of the two parts of the inode table,
-- dpfs_fuse_new, mpool_init for every thread, and of the connections.
pub record MainWorld : Type 0 where
  pub vnfs : Bool
  pub table : Bool
  pub array : Bool
  pub fuse : Bool
  pub pools : Bool
  pub conns : Bool

-- `export[0] != '/'`, where the character of an empty path is its NUL.
unfoldable pub starts_with_slash : List ℕ → Bool
starts_with_slash [] = 0 == slash
starts_with_slash (c ∷ export_path) = c == slash

unfoldable pub nfs_main :
    MainWorld → BootWorld → (nthreads : ℕ) (export_path : List ℕ) → Option Boot
unfolding starts_with_slash
nfs_main m w nthreads export_path =
    if m.vnfs
    then if starts_with_slash export_path
      then elim (inode_table_init m.table m.array) [
        | ready inodes ↦
            if m.fuse
            then if m.pools
              then if m.conns
                then some (
                    init_connections w
                      (record (main_state nthreads export_path) { inodes = inodes }))
                else none
              else none
            else none
        | enomem ↦ none
        | failed ↦ none
      ]
      else none
    else none

nothing-ne : {A : Type 0} (a : A) → none ≡ some a → ⊥
nothing-ne a e = cc

some-same : {A : Type 0} (a a' : A) → some a ≡ some a' → a ≡ a'
some-same a a' e = cc

begun-by :
    (lib : Protocol) (w : BootWorld) (vnfs table array fuse pools conns : Bool) (nthreads : ℕ)
    (export_path : List ℕ) (b : Boot)
    → starts_with_slash export_path ≡ true
    → nfs_main
        (record {
          vnfs = vnfs;
          table = table;
          array = array;
          fuse = fuse;
          pools = pools;
          conns = conns;
        })
        w
        nthreads
        export_path
      ≡ some b
    → Boots lib (main_state nthreads export_path) b
unfolding nfs_main inode_table_init main_state
begun-by lib w false t a f p c nthreads path b s e = absurd (nothing-ne b e)
begun-by lib w true false a f p c nthreads path b s e = absurd (nothing-ne b (rw s at e))
begun-by lib w true true false f p c nthreads path b s e = absurd (nothing-ne b (rw s at e))
begun-by lib w true true true false p c nthreads path b s e = absurd (nothing-ne b (rw s at e))
begun-by lib w true true true true false c nthreads path b s e = absurd (nothing-ne b (rw s at e))
begun-by lib w true true true true true false nthreads path b s e =
    absurd (nothing-ne b (rw s at e))
begun-by lib w true true true true true true nthreads path b s e =
    subst (Boots lib (main_state nthreads path)) (some-same _ b (rw s at e)) (begun w)

started-slash :
    (m : MainWorld) (w : BootWorld) (nthreads : ℕ) (export_path : List ℕ) (b : Boot)
    → starts_with_slash export_path ≡ false
    → nfs_main m w nthreads export_path ≡ some b
    → ⊥
unfolding nfs_main
started-slash m w nthreads path b s e = elim (Bool-cases m.vnfs) [
  | inl made ↦ nothing-ne b (rw (made, s) at e)
  | inr not_made ↦ nothing-ne b (rw not_made at e)
]

-- When it gets as far as the loop, the path of the export starts with a slash, and the handshakes have
-- begun.
pub nfs_main-Boots :
    (lib : Protocol) (m : MainWorld) (w : BootWorld) (nthreads : ℕ) (export_path : List ℕ)
    (b : Boot)
    → nfs_main m w nthreads export_path ≡ some b
    → (starts_with_slash export_path ≡ true) × Boots lib (main_state nthreads export_path) b
nfs_main-Boots lib m w nthreads path b e = elim (Bool-cases (starts_with_slash path)) [
  | inl slashed ↦ (
    slashed,
    begun-by lib w m.vnfs m.table m.array m.fuse m.pools m.conns nthreads path b slashed e,
  )
  | inr other ↦ absurd (started-slash m w nthreads path b other e)
]
