-- ===== src/Nfs/Connect/Results.antt =====
-- The results of a compound, and the search for an operation in them (nfs4_find_op of
-- dpfs_nfs/nfs_v4.c).
use mathlib.Core.Option.{some-injective}
use dpfs.Prelude.{
  ℕ, zero, suc, ◌+◌, ◌<◌, ◌≡◌, ◌≢◌, inl, inr, arith, Option, none, some, List, [], ◌∷◌, ◌==◌,
  ==_iff, length, if◌then◌else◌, Bool-cases,
}

-- One result of a compound: the number of its operation, and the handle when that is GETFH.
pub record ResOp : Type 0 where
  pub resop : ℕ
  pub object : List ℕ

unfoldable pub find_op_from : ℕ → List ResOp → ℕ → Option ℕ
find_op_from i [] op = none
find_op_from i (r ∷ resarray) op =
    let rest = find_op_from (i + 1) resarray op in if r.resop == op then some i else rest

-- `none` is -1.
unfoldable pub nfs4_find_op : List ResOp → ℕ → Option ℕ
unfolding find_op_from
nfs4_find_op resarray op = find_op_from 0 resarray op

abbrev pub resop_at : List ResOp → ℕ → ℕ → ℕ
resop_at [] i d = d
resop_at (r ∷ resarray) zero d = r.resop
resop_at (r ∷ resarray) (suc i) d = resop_at resarray i d

earlier :
    (r : ResOp) (resarray : List ResOp) (op j d : ℕ)
    → r.resop ≢ op
    → ((m : ℕ) → m < j → resop_at resarray m d ≢ op)
    → (m : ℕ) → m < suc j
    → resop_at (r ∷ resarray) m d ≢ op
earlier r resarray op j d apart before zero h = apart
earlier r resarray op j d apart before (suc m) h = before m (omega arith)

some-ne-none : (k : ℕ) → some k ≡ none → ⊥
some-ne-none k e = cc

find_from-some :
    (resarray : List ResOp) (k op i d : ℕ)
    → find_op_from k resarray op ≡ some i
    → (j : ℕ) × (i ≡ k + j)
      × (j < length resarray)
      × (resop_at resarray j d ≡ op)
      × ((m : ℕ) → m < j → resop_at resarray m d ≢ op)
unfolding find_op_from
find_from-some [] k op i d e = cc
find_from-some (r ∷ resarray) k op i d e = elim (Bool-cases (r.resop == op)) [
  | inl hit ↦
      let same : k ≡ i = some-injective k i (rw hit at e) in
      (0, omega arith, omega arith, (==_iff r.resop op).0 hit, λ m h. absurd (omega arith))
  | inr miss ↦
      let (j, at, lt, is, before) = find_from-some resarray (k + 1) op i d (rw miss at e) in
      let apart : r.resop ≢ op = ground arith in
      (suc j, omega arith, omega arith, is, λ m h. earlier r resarray op j d apart before m h)
]

find_from-none :
    (resarray : List ResOp) (k op d : ℕ)
    → find_op_from k resarray op ≡ none
    → (m : ℕ) → m < length resarray
    → resop_at resarray m d ≢ op
unfolding find_op_from
find_from-none [] k op d e m h = absurd (omega arith)
find_from-none (r ∷ resarray) k op d e m h = elim (Bool-cases (r.resop == op)) [
  | inl hit ↦ absurd (some-ne-none k (rw hit at e))
  | inr miss ↦
      let apart : r.resop ≢ op = ground arith in
      earlier r resarray op (length resarray) d apart
        (find_from-none resarray (k + 1) op d (rw miss at e)) m h
]

-- The search gives the first of the results with the operation's number, and -1 only when there is
-- none. `d` is what a result past the end would be read as.
find_op-first :
    (resarray : List ResOp) (op d : ℕ)
    → ((i : ℕ)
        → nfs4_find_op resarray op ≡ some i
        → (i < length resarray)
          × (resop_at resarray i d ≡ op)
          × ((m : ℕ) → m < i → resop_at resarray m d ≢ op))
      × (nfs4_find_op resarray op ≡ none
          → (m : ℕ) → m < length resarray
          → resop_at resarray m d ≢ op)
unfolding nfs4_find_op
find_op-first resarray op d = (
  λ i e.
      let (j, at, lt, is, before) = find_from-some resarray 0 op i d e in
      let same : j ≡ i = omega arith in rw (← same) (lt, is, before),
  λ e. find_from-none resarray 0 op d e,
)
