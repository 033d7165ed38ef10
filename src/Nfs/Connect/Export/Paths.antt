-- ===== src/Nfs/Connect/Export/Paths.antt =====
-- Which paths of an export are looked up name by name.
use mathlib.Core.List.{append-nil, append_assoc}
use dpfs.Prelude.{
  ℕ, zero, suc, ◌+◌, ◌<◌, ◌≡◌, ◌≢◌, ◌∙◌, refl, ap, sym, arith, false, none, some, List, [], ◌∷◌,
  ◌++◌, ◌==◌, length, length-append,
}
use dpfs.Nfs.Connect.Export.{slash, chop, count_slashes, flush, tokens, root_names, export_names}

abbrev pub NoSlash : List ℕ → Type 0
NoSlash [] = Unit
NoSlash (c ∷ cs) = (c ≢ slash) × NoSlash cs

-- The name of a directory: not empty, and without a slash.
abbrev pub IsName : List ℕ → Type 0
IsName n = (0 < length n) × NoSlash n

abbrev pub AreNames : List (List ℕ) → Type 0
AreNames [] = Unit
AreNames (n ∷ ns) = IsName n × AreNames ns

-- The path with a slash before each name.
abbrev pub join : List (List ℕ) → List ℕ
join [] = []
join (n ∷ ns) = slash ∷ n ++ join ns

count-append : (xs ys : List ℕ) → count_slashes (xs ++ ys) ≡ count_slashes xs + count_slashes ys
unfolding count_slashes
count-append [] ys = omega arith
count-append (c ∷ xs) ys = ground (arith, count-append xs ys)

count-plain : (n : List ℕ) → NoSlash n → count_slashes n ≡ 0
unfolding count_slashes
count-plain [] h = refl
count-plain (c ∷ n) h = let e = h.0 in ground (arith, count-plain n h.1)

count-join : (ns : List (List ℕ)) → AreNames ns → count_slashes (join ns) ≡ length ns
unfolding count_slashes
count-join [] h = refl
count-join (n ∷ ns) h =
    rw (count-append n (join ns), count-plain n h.0.1, count-join ns h.1) (omega arith)

tokens-plain :
    (token n rest : List ℕ) → NoSlash n → tokens token (n ++ rest) ≡ tokens (token ++ n) rest
unfolding tokens
tokens-plain token [] rest h = rw (append-nil token)
tokens-plain token (c ∷ n) rest h =
    let miss : (c == slash) ≡ false = let e = h.0 in ground arith in
    rw miss (
      tokens-plain (token ++ c ∷ []) n rest h.1
      ∙ ap (λ t. tokens t rest) (append_assoc token (c ∷ []) n))

flush-name : (n : List ℕ) (rest : List (List ℕ)) → 0 < length n → flush n rest ≡ n ∷ rest
flush-name [] rest h = absurd (omega arith)
flush-name (c ∷ n) rest h = refl

-- A slash ends the path of names, whatever follows.
tokens-join :
    (ns : List (List ℕ)) (token rest : List ℕ)
    → AreNames ns
    → tokens token (join ns ++ slash ∷ rest) ≡ flush token (ns ++ tokens [] rest)
unfolding tokens
tokens-join [] token rest h = refl
tokens-join (n ∷ ns) token rest h = ap (flush token) (
    rw append_assoc (
      tokens-plain [] n (join ns ++ slash ∷ rest) h.0.1
      ∙ tokens-join ns n rest h.1
      ∙ flush-name n (ns ++ tokens [] rest) h.0.0))

tokens-join_end :
    (ns : List (List ℕ)) (token : List ℕ) → AreNames ns → tokens token (join ns) ≡ flush token ns
unfolding tokens
tokens-join_end [] token h = refl
tokens-join_end (n ∷ ns) token h =
    ap (flush token)
      (tokens-plain [] n (join ns) h.0.1 ∙ tokens-join_end ns n h.1 ∙ flush-name n ns h.0.0)

root_names-all : (ts : List (List ℕ)) → root_names (length ts) ts ≡ some ts
unfolding root_names
root_names-all [] = refl
root_names-all (t ∷ ts) = rw (root_names-all ts)

root_names-short : (count : ℕ) (ts : List (List ℕ)) → length ts < count → root_names count ts ≡ none
unfolding root_names
root_names-short zero ts h = absurd (omega arith)
root_names-short (suc count) [] h = refl
root_names-short (suc count) (t ∷ ts) h = rw (root_names-short count ts (omega arith))

chop-append : (xs ys : List ℕ) → 0 < length ys → chop (xs ++ ys) ≡ xs ++ chop ys
unfolding chop
chop-append [] ys h = refl
chop-append (x ∷ []) [] h = absurd (omega arith)
chop-append (x ∷ []) (y ∷ ys) h = refl
chop-append (x ∷ x' ∷ xs) ys h = ap (λ r. x ∷ r) (chop-append (x' ∷ xs) ys h)

chop-name : (n : List ℕ) → NoSlash n → chop n ≡ n
unfolding chop
chop-name [] h = refl
chop-name (c ∷ []) h = let e = h.0 in ground arith
chop-name (c ∷ d ∷ n) h = ap (λ r. c ∷ r) (chop-name (d ∷ n) h.1)

chop-join : (ns : List (List ℕ)) → AreNames ns → chop (join ns) ≡ join ns
unfolding chop
chop-join [] h = refl
chop-join (n ∷ []) h =
    let alone : slash ∷ n ++ [] ≡ slash ∷ n = ap (λ r. slash ∷ r) (append-nil n) in
    ap chop alone
    ∙ chop-append (slash ∷ []) n h.0.0
    ∙ ap (λ r. slash ∷ r) (chop-name n h.0.1)
    ∙ sym alone
chop-join (n ∷ m ∷ ns) h =
    chop-append (slash ∷ n) (join (m ∷ ns)) (omega arith)
    ∙ ap (λ r. slash ∷ n ++ r) (chop-join (m ∷ ns) h.1)

-- The path of a list of names, each with a slash before it and with or without one slash more at the
-- end, is looked up name by name.
pub export_names-join :
    (ns : List (List ℕ))
    → AreNames ns
    → (export_names (join ns) ≡ some ns) × (export_names (join ns ++ slash ∷ []) ≡ some ns)
unfolding export_names
export_names-join ns h =
    let cut : root_names (count_slashes (join ns)) (tokens [] (join ns)) ≡ some ns =
      rw (count-join ns h, tokens-join_end ns [] h) (root_names-all ns) in
    let last : chop (join ns ++ slash ∷ []) ≡ join ns =
      chop-append (join ns) (slash ∷ []) (omega arith) ∙ append-nil (join ns) in
    (rw (chop-join ns h) cut, rw last cut)

-- A path with two slashes in a row between names makes the code take the length of a name that is
-- not there.
pub export_names-double :
    (ns ms : List (List ℕ))
    → AreNames ns
    → AreNames ms
    → 0 < length ms
    → export_names (join ns ++ slash ∷ join ms) ≡ none
unfolding export_names count_slashes
export_names-double ns [] h k pos = absurd (omega arith)
export_names-double ns (m ∷ ms) h k pos =
    let whole : chop (join ns ++ slash ∷ join (m ∷ ms)) ≡ join ns ++ slash ∷ join (m ∷ ms) =
      chop-append (join ns) (slash ∷ join (m ∷ ms)) (omega arith)
      ∙ ap (λ r. join ns ++ r)
          (chop-append (slash ∷ []) (join (m ∷ ms)) (omega arith)
            ∙ ap (λ r. slash ∷ r) (chop-join (m ∷ ms) k)) in
    rw (whole, tokens-join ns [] (join (m ∷ ms)) h, tokens-join_end (m ∷ ms) [] k)
      (root_names-short (count_slashes (join ns ++ slash ∷ join (m ∷ ms))) (ns ++ flush [] (m ∷ ms))
        (rw (count-append, length-append, count-join ns h)
          (let e = count-join (m ∷ ms) k in ground arith)))
