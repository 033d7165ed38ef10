-- ===== src/Nfs/Session/Slots.antt =====
-- Which slot a request gets, and what the claim changes.
use mathlib.Core.Path.{subst}
use mathlib.Core.Option.{some-injective}
use dpfs.Prelude.{
  ℕ, zero, suc, ◌+◌, ◌%◌, ◌^◌, ◌<◌, ◌≡◌, ◌↔◌, refl, ap, sym, ◌∙◌, inl, inr, Bool, true, false, none,
  some, List, [], ◌∷◌, arith, Bool-cases, Option-cases, if◌then◌else◌, length, get_or, get_or-set,
  length-set, ◌==◌, ==_iff,
}
use dpfs.Nfs.Session.{
  Slot, Session, SequenceArgs, fresh_slot, find_free, claim, highest_loop, set_in_use, bump_seqid,
  op_sequence,
}

-- Whether a slot is in use; a slot past the array is not.
abbrev pub in_use_at : List Slot → ℕ → Bool
in_use_at slots i = (get_or slots i fresh_slot).in_use

-- The scan from `start` on stops at the first free slot, which is the k-th of those left.
find_free-some :
    (start : ℕ) (slots : List Slot) (i : ℕ)
    → find_free start slots ≡ some i
    → (k : ℕ) × (i ≡ start + k)
      × (k < length slots)
      × (in_use_at slots k ≡ false)
      × ((j : ℕ) → j < k → in_use_at slots j ≡ true)
unfolding find_free
find_free-some start [] i e = cc
find_free-some start (s ∷ slots) i e = elim (Bool-cases s.in_use) [
  | inl busy ↦
      let (k, e', lt, free, before) = find_free-some (start + 1) slots i (rw busy at e) in
      (
        suc k,
        omega arith,
        omega arith,
        free,
        elim [ zero ↦ λ h. busy | suc j ↦ λ h. before j (omega arith) ],
      )
  | inr free ↦ (0, ground arith, omega arith, free, λ j h. absurd (omega arith))
]

-- The scan fails only when every slot is in use.
find_free-none :
    (start : ℕ) (slots : List Slot) (j : ℕ)
    → find_free start slots ≡ none
    → j < length slots
    → in_use_at slots j ≡ true
unfolding find_free
find_free-none start [] j e h = absurd (omega arith)
find_free-none start (s ∷ slots) zero e h = ground arith
find_free-none start (s ∷ slots) (suc j) e h =
    find_free-none (start + 1) slots j (ground arith) (omega arith)

-- The second loop ends at the lowest slot, and so with its number when that is in use.
highest_loop-zero :
    (past : Slot) (slots : List Slot) (rounds highest : ℕ)
    → 0 < length slots
    → in_use_at slots 0 ≡ true
    → highest_loop past slots (suc rounds) highest ≡ 0
unfolding highest_loop
highest_loop-zero past [] rounds highest h used = absurd (omega arith)
highest_loop-zero past (s ∷ slots) zero highest h used = rw used
highest_loop-zero past (s ∷ slots) (suc rounds) highest h used =
    highest_loop-zero past (s ∷ slots) rounds _ h used

-- The slot array after a write of one slot's flag.
pub in_use-set_in_use :
    (slots : List Slot) (i j : ℕ) (b : Bool)
    → i < length slots
    → in_use_at (set_in_use slots i b) j ≡ (if i == j then b else in_use_at slots j)
in_use-set_in_use slots i j b h =
    ap (λ (s : Slot). s.in_use) (get_or-set slots i j _ fresh_slot h)
    ∙ elim (Bool-cases (i == j)) [ inl e ↦ rw e | inr e ↦ rw e ]

in_use-bump :
    (slots : List Slot) (i j : ℕ)
    → i < length slots
    → in_use_at (bump_seqid slots i) j ≡ in_use_at slots j
in_use-bump slots i j h =
    ap (λ (s : Slot). s.in_use) (get_or-set slots i j _ fresh_slot h)
    ∙ elim (Bool-cases (i == j)) [ inl e ↦ rw (e, (==_iff i j).0 e) | inr e ↦ rw e ]

in_use-claim :
    (slots : List Slot) (i j : ℕ)
    → i < length slots
    → in_use_at (bump_seqid (set_in_use slots i true) i) j
      ≡ (if i == j then true else in_use_at slots j)
in_use-claim slots i j h =
    in_use-bump (set_in_use slots i true) i j (rw length-set h) ∙ in_use-set_in_use slots i j true h

-- The state of the session after a claim, against the one before it.
pub record Claimed (session : Session) (args : SequenceArgs) (after : Session) : Type 0 where
  pub bound : args.slotid < length session.slots
  pub was_free : in_use_at session.slots args.slotid ≡ false
  pub lowest : (j : ℕ) → j < args.slotid → in_use_at session.slots j ≡ true
  pub claimed :
      (j : ℕ)
      → in_use_at after.slots j ≡ (if args.slotid == j then true else in_use_at session.slots j)
  pub same_length : length after.slots ≡ length session.slots
  pub next_seqid :
      args.sequenceid ≡ ((get_or session.slots args.slotid fresh_slot).seqid + 1) % 2 ^ 32
  pub names_lowest : args.highest_slotid ≡ 0

in_use_zero :
    (slots : List Slot) (i : ℕ)
    → i < length slots
    → ((j : ℕ) → j < i → in_use_at slots j ≡ true)
    → in_use_at (set_in_use slots i true) 0 ≡ true
in_use_zero slots zero h before = rw (in_use-set_in_use slots 0 0 true h)
in_use_zero slots (suc i) h before =
    rw (in_use-set_in_use slots (suc i) 0 true h) (ground (arith, before 0))

none-ne-some : {A : Type 0} (a : A) → none ≡ some a → ⊥
none-ne-some a h = cc

true-ne-false : true ≡ false → ⊥
true-ne-false h = cc

seqid-claim :
    (slots : List Slot) (i : ℕ)
    → i < length slots
    → (get_or (bump_seqid (set_in_use slots i true) i) i fresh_slot).seqid
      ≡ ((get_or slots i fresh_slot).seqid + 1) % 2 ^ 32
seqid-claim slots i h = rw (
  get_or-set (set_in_use slots i true) i i _ fresh_slot (rw length-set h),
  get_or-set slots i i _ fresh_slot h,
  (==_iff i i).1 refl,
)

claim-Claimed :
    (past : Slot) (stale : ℕ) (session : Session) (cachethis : Bool) (i : ℕ)
    → find_free 0 session.slots ≡ some i
    → Claimed session
        (claim past stale session cachethis i).0
        (claim past stale session cachethis i).1
unfolding claim
claim-Claimed past stale session cachethis i e =
    let (k, e', lt, free, before) = find_free-some 0 session.slots i e in
    let same : k ≡ i = omega arith in
    let lt' : i < length session.slots = omega arith in
    let before' : (j : ℕ) → j < i → in_use_at session.slots j ≡ true =
      λ j h. before j (omega arith) in
    record {
      bound = lt';
      was_free = rw (← same) free;
      lowest = before';
      claimed = λ j. in_use-claim session.slots i j lt';
      same_length = rw (length-set, length-set);
      next_seqid = seqid-claim session.slots i lt';
      names_lowest =
          highest_loop-zero past (set_in_use session.slots i true)
            (length (set_in_use session.slots i true)) stale (rw length-set (omega arith))
            (in_use_zero session.slots i lt' before');
    }

-- A claim takes the lowest slot that was free, marks it and no other slot, and sends the slot's
-- sequence id plus one. The field for the highest slot in use is sent as 0, whatever is in use.
pub op_sequence-Claimed :
    (past : Slot) (stale : ℕ) (session after : Session) (cachethis : Bool) (args : SequenceArgs)
    → op_sequence past stale session cachethis ≡ some (args, after)
    → Claimed session args after
unfolding op_sequence
op_sequence-Claimed past stale session after cachethis args e =
    elim (Option-cases (find_free 0 session.slots)) [
      | inl f ↦ absurd (none-ne-some (args, after) (rw (f, op_sequence) at e))
      | inr (i, f) ↦
          subst (λ r. Claimed session r.0 r.1)
            (some-injective _ (args, after) (rw (f, op_sequence) at e))
            (claim-Claimed past stale session cachethis i f)
    ]

-- The claim fails exactly when every slot is in use.
op_sequence-none :
    (past : Slot) (stale : ℕ) (session : Session) (cachethis : Bool)
    → (op_sequence past stale session cachethis ≡ none)
      ↔ ((j : ℕ) → j < length session.slots → in_use_at session.slots j ≡ true)
unfolding op_sequence
op_sequence-none past stale session cachethis = (
  λ e j h. find_free-none 0 session.slots j (ground arith) h,
  λ full. elim (Option-cases (find_free 0 session.slots)) [
    | inl f ↦ rw (f, op_sequence)
    | inr (i, f) ↦
        let (k, e', lt, free, before) = find_free-some 0 session.slots i f in
        absurd (true-ne-false (sym (full k lt) ∙ free))
  ],
)
