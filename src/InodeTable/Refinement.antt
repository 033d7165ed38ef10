-- ===== src/InodeTable/Refinement.antt =====
-- The table against what it promises: a map from keys to entries, in which the chains and the size of
-- the array play no part.
use dpfs.Prelude.{
  ℕ, ◌<◌, ◌≡◌, ◌∙◌, refl, sym, ap, inl, inr, Option, none, some, List, [], ◌∷◌, ◌==◌, if◌then◌else◌,
  Option-cases,
}
use mathlib.Core.Option
use dpfs.InodeTable.{Table, table_init, table_get, table_getsert, table_remove, table_update}
use dpfs.InodeTable.Laws.{IsTable, table_get-init, table_get-insert, table_get-remove}
use dpfs.InodeTable.Invariant.{init-IsTable, insert-IsTable, remove-IsTable, update-IsTable}
use dpfs.InodeTable.Update.{table_get-update}

-- What a client asks for. `fresh` is the entry that an allocation would give.
pub data TableOp {ℓ} (A : Type ℓ) : Type ℓ where
  get : ℕ → TableOp A
  getsert : ℕ → (fresh : Option A) → TableOp A
  remove : ℕ → TableOp A
  update : ℕ → (A → A) → TableOp A

module _ {ℓ} {A : Type ℓ} (key : A → ℕ) where
  -- A new entry has the key it is put in for, and a write leaves the key alone.
  abbrev pub IsProper : TableOp A → Type ℓ
  IsProper (get k) = Unit
  IsProper (getsert k fresh) = (i : A) → fresh ≡ some i → key i ≡ k
  IsProper (remove k) = Unit
  IsProper (update k f) = (x : A) → key (f x) ≡ key x

  abbrev pub AreProper : List (TableOp A) → Type ℓ
  AreProper [] = Unit
  AreProper (op ∷ ops) = IsProper op × AreProper ops

  -- What the operation gives back, and the table after it.
  unfoldable pub run_op : Table A → TableOp A → Option A × Table A
  run_op t (get k) = (table_get key t k, t)
  run_op t (getsert k fresh) = table_getsert key t k fresh
  run_op t (remove k) = table_remove key t k
  run_op t (update k f) = (Option.map f (table_get key t k), table_update key t k f)

  unfoldable pub run_ops : Table A → List (TableOp A) → List (Option A) × Table A
  unfolding run_op
  run_ops t [] = ([], t)
  run_ops t (op ∷ ops) =
      let (got, t') = run_op t op in let (rest, t'') = run_ops t' ops in (got ∷ rest, t'')

  abbrev pub Map : Type ℓ
  Map = ℕ → Option A

  abbrev put : Map → ℕ → Option A → Map
  put m k v j = if k == j then v else m j

  -- The same on a map.
  abbrev pub spec_op : Map → TableOp A → Option A × Map
  spec_op m (get k) = (m k, m)
  spec_op m (getsert k none) = (m k, m)
  spec_op m (getsert k (some i)) = elim (m k) [
    | some j ↦ (some j, m)
    | none ↦ (some i, put m k (some i))
  ]
  spec_op m (remove k) = (m k, put m k none)
  spec_op m (update k f) = (Option.map f (m k), put m k (Option.map f (m k)))

  abbrev pub spec_ops : Map → List (TableOp A) → List (Option A) × Map
  spec_ops m [] = ([], m)
  spec_ops m (op ∷ ops) =
      let (got, m') = spec_op m op in let (rest, m'') = spec_ops m' ops in (got ∷ rest, m'')

  -- The table stands for the map.
  pub record Stands (t : Table A) (m : Map) : Type ℓ where
    pub table : IsTable key t
    pub same : (k : ℕ) → table_get key t k ≡ m k

  getsert-Stands :
      (k : ℕ) (fresh : Option A) (t : Table A) (m : Map)
      → IsProper (getsert k fresh)
      → Stands t m
      → ((table_getsert key t k fresh).0 ≡ (spec_op m (getsert k fresh)).0)
        × Stands (table_getsert key t k fresh).1 (spec_op m (getsert k fresh)).1
  unfolding table_getsert
  getsert-Stands k none t m p s = elim (Option-cases (table_get key t k)) [
    | inl e ↦ rw (e, table_getsert) (sym e ∙ s.same k, s)
    | inr (i, e) ↦ rw (e, table_getsert) (sym e ∙ s.same k, s)
  ]
  getsert-Stands k (some i) t m p s =
      let own : key i ≡ k = p i refl in
      elim (Option-cases (table_get key t k)) [
        | inl e ↦
            let e' : m k ≡ none = sym (s.same k) ∙ e in
            rw (e, e', table_getsert, spec_op)
              (
                refl,
                record {
                  table = insert-IsTable key t i (rw own e) s.table;
                  same = λ j.
                      table_get-insert key t i j s.table.positive
                      ∙ rw own (ap (λ v. if k == j then some i else v) (s.same j));
                },
              )
        | inr (j, e) ↦
            let e' : m k ≡ some j = sym (s.same k) ∙ e in
            rw (e, e', table_getsert, spec_op) (refl, s)
      ]

  written-same :
      (k j : ℕ) (f : A → A) (t : Table A) (m : Map)
      → Stands t m
      → (if k == j then Option.map f (table_get key t k) else table_get key t j)
        ≡ (if k == j then Option.map f (m k) else m j)
  written-same k j f t m s =
      ap (λ v. if k == j then Option.map f v else table_get key t j) (s.same k)
      ∙ ap (λ v. if k == j then Option.map f (m k) else v) (s.same j)

  -- One operation.
  op-Stands :
      (op : TableOp A) (t : Table A) (m : Map)
      → IsProper op
      → Stands t m
      → ((run_op t op).0 ≡ (spec_op m op).0) × Stands (run_op t op).1 (spec_op m op).1
  unfolding run_op
  op-Stands (get k) t m p s = (s.same k, s)
  op-Stands (getsert k fresh) t m p s = getsert-Stands k fresh t m p s
  op-Stands (remove k) t m p s = (
    (table_get-remove key t k k s.table).0 ∙ s.same k,
    record {
      table = remove-IsTable key t k s.table;
      same = λ j.
          (table_get-remove key t k j s.table).1 ∙ ap (λ v. if k == j then none else v) (s.same j);
    },
  )
  op-Stands (update k f) t m p s = (
    ap (Option.map f) (s.same k),
    record {
      table = update-IsTable key t k f p s.table;
      same = λ j. table_get-update key t k j f s.table.positive p ∙ written-same k j f t m s;
    },
  )

  -- A list of operations, each new entry with the key it is put in for and each write leaving the key
  -- alone, gives on a well-formed table what it gives on the map that the table stands for, and the
  -- table stands for the map afterwards.
  pub ops-Stands :
      (ops : List (TableOp A)) (t : Table A) (m : Map)
      → AreProper ops
      → Stands t m
      → ((run_ops t ops).0 ≡ (spec_ops m ops).0) × Stands (run_ops t ops).1 (spec_ops m ops).1
  unfolding run_ops
  ops-Stands [] t m p s = (refl, s)
  ops-Stands (op ∷ ops) t m p s =
      let (one, s') = op-Stands op t m p.0 s in
      let (all, s'') = ops-Stands ops (run_op t op).1 (spec_op m op).1 p.1 s' in
      (
        ap (λ got. got ∷ (run_ops (run_op t op).1 ops).0) one
            ∙ ap (λ rest. (spec_op m op).0 ∷ rest) all,
        s'',
      )

  -- From a new table of at least one chain, a list of operations, each new entry with the key it is put
  -- in for and each write leaving the key alone, gives what it gives on the empty map, entry by entry,
  -- and a lookup of any key afterwards gives what the map has.
  pub table-refines :
      (n : ℕ) (ops : List (TableOp A))
      → 0 < n
      → AreProper ops
      → ((run_ops (table_init n) ops).0 ≡ (spec_ops (λ k. none) ops).0)
        × ((k : ℕ)
            → table_get key (run_ops (table_init n) ops).1 k ≡ (spec_ops (λ k. none) ops).1 k)
  table-refines n ops pos p =
      let empty : Stands (table_init n) (λ k. none) = record {
        table = init-IsTable key n pos;
        same = table_get-init key n;
      } in
      let (all, s) = ops-Stands ops (table_init n) (λ k. none) p empty in (all, s.same)
