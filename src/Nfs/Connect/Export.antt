-- ===== src/Nfs/Connect/Export.antt =====
-- The path of the export, as lookup_true_rootfh of dpfs_nfs/vnfs_connect.c takes it apart into the
-- LOOKUP operations of a compound. Characters are numbers, and the NUL at the end is left out.
pub mod Paths
use dpfs.Prelude.{ℕ, zero, suc, Option, none, some, List, [], ◌∷◌, ◌++◌, ◌==◌, if◌then◌else◌}

-- '/'
abbrev pub slash : ℕ
slash = 47

-- `if (export[export_len-1] == '/') export[export_len-1] = '\0';`
unfoldable pub chop : List ℕ → List ℕ
chop [] = []
chop (c ∷ []) = if c == slash then [] else c ∷ []
chop (c ∷ d ∷ export) = c ∷ chop (d ∷ export)

-- `while(*export_traverse) if (*export_traverse++ == '/') ++count;`
unfoldable pub count_slashes : List ℕ → ℕ
count_slashes [] = 0
count_slashes (c ∷ export) =
    let count = count_slashes export in if c == slash then suc count else count

abbrev pub flush : List ℕ → List (List ℕ) → List (List ℕ)
flush [] rest = rest
flush (c ∷ token) rest = (c ∷ token) ∷ rest

-- What the calls of `strtok` with "/" return one after the other, before NULL. `token` is what has
-- been read of the next one.
unfoldable pub tokens : List ℕ → List ℕ → List (List ℕ)
tokens token [] = flush token []
tokens token (c ∷ export) =
    if c == slash then flush token (tokens [] export) else tokens (token ++ c ∷ []) export

-- The loop `while (i < count+2)`: one name for each slash. `none` is `strlen(NULL)`, when there are
-- fewer tokens than slashes.
unfoldable pub root_names : ℕ → List (List ℕ) → Option (List (List ℕ))
root_names zero ts = some []
root_names (suc count) [] = none
root_names (suc count) (t ∷ ts) = elim (root_names count ts) [
  | none ↦ none
  | some names ↦ some (t ∷ names)
]

unfoldable pub export_names : List ℕ → Option (List (List ℕ))
unfolding chop count_slashes tokens root_names
export_names export = let cut = chop export in root_names (count_slashes cut) (tokens [] cut)
