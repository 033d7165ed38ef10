-- ===== src/Mirror/Sound.antt =====
-- The inodes against the references that the kernel holds: what is true between two requests.
pub mod Place
pub mod Gone
use mathlib.Core.Option.{some-injective}
use mathlib.Core.Path.{subst}
use dpfs.Prelude.{
  ℕ, zero, suc, ◌+◌, ◌<◌, ◌≡◌, ◌≢◌, ◌⊎◌, ◌∙◌, inl, inr, refl, sym, ap, arith, Bool, true, false,
  Option, none, some, ◌==◌, ==_iff, if◌then◌else◌, Bool-cases, Option-cases,
}
use dpfs.InodeTable.{Table, table_get, table_insert, table_remove}
use dpfs.InodeTable.Laws.{IsTable, table_get-insert, table_get-remove}
use dpfs.InodeTable.Invariant.{insert-IsTable, remove-IsTable}
use dpfs.InodeTable.Update.{table_get-key}
use dpfs.Mirror.{Fd, unset, fd, Node, Ref, ref_ino, update_heap}

-- What is held outside of the program: the references to each inode that the kernel has been given and
-- has not forgotten, and the descriptors that belong to no inode of the table.
pub record Client : Type 0 where
  pub refs : ℕ → ℕ
  pub handles : ℕ → Bool

abbrev pub set_refs : Client → ℕ → ℕ → Client
set_refs cl a n = record cl { refs = λ b. if a == b then n else cl.refs b }

pub ne_test : (a b : ℕ) → a ≢ b → (a == b) ≡ false
ne_test a b ne = ground arith

-- What is at an address after a write to the heap.
pub heap_cases :
    (heap : ℕ → Option Node) (a b : ℕ) (v : Option Node) (m : Node)
    → update_heap heap a v b ≡ some m
    → ((a ≡ b) × (v ≡ some m)) ⊎ ((a ≢ b) × (heap b ≡ some m))
heap_cases heap a b v m h = elim (Bool-cases (a == b)) [
  | inl e ↦ inl ((==_iff a b).0 e, rw e at h)
  | inr e ↦ inr (λ same. cc ((==_iff a b).1 same), rw e at h)
]

module _ (root_id : ℕ) where
  -- An inode at an address: it is in the table under its number, its count is that of the kernel's
  -- references, of which there is one, and its descriptor is open and its own.
  pub record IsNode (cl : Client) (table : Table Ref) (is_open : ℕ → Bool) (a : ℕ) (n : Node)
      : Type 0 where
    pub elsewhere : (a ≢ root_id) × (0 < a)
    pub listed : table_get ref_ino table n.ino ≡ some (record { ino = n.ino; at = a })
    pub source : n.src_ino ≡ n.ino
    pub count : n.nlookup ≡ cl.refs a
    pub held : 0 < n.nlookup
    pub known : n.fd ≢ unset
    pub opened : (x : ℕ) → n.fd ≡ fd x → (0 < x) × (is_open x ≡ true) × (cl.handles x ≡ false)

  pub record Sound (cl : Client) (heap : ℕ → Option Node) (table : Table Ref) (is_open : ℕ → Bool)
      : Type 0 where
    pub in_place : IsTable ref_ino table
    pub owned :
        (k : ℕ) (r : Ref)
        → table_get ref_ino table k ≡ some r
        → (n : Node) × (heap r.at ≡ some n) × (n.ino ≡ k)
    pub node : (a : ℕ) (n : Node) → heap a ≡ some n → IsNode cl table is_open a n
    pub alone :
        (a b : ℕ) (n m : Node) (x : ℕ)
        → heap a ≡ some n
        → heap b ≡ some m
        → n.fd ≡ fd x
        → m.fd ≡ fd x
        → a ≡ b
    pub no_refs : (a : ℕ) → heap a ≡ none → cl.refs a ≡ 0
    pub others : (x : ℕ) → cl.handles x ≡ true → is_open x ≡ true
