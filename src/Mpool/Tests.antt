-- ===== src/Mpool/Tests.antt =====
-- The pool of lib/mpool.c over a ring that is a bounded list.
use dpfs.Prelude.{
  ℕ, ◌-◌, ◌^◌, ◌<◌, ◌≤◌, ◌≡◌, refl, inl, inr, true, Option, none, some, List, [], ◌∷◌, ◌++◌, map,
  arith, ltb, le→ltb, lt→ltb, if◌then◌else◌, length, take,
}
use dpfs.Mpool.{RingOps, mpool_init, ready}
use dpfs.Mpool.Laws.{list_cases}
use dpfs.Mpool.Filling.{init-contents}

pub record Queue : Type 0 where
  pub items : List ℕ
  pub places : ℕ

abbrev pub push : Queue → ℕ → Queue
push q e = if ltb (length q.items) q.places then record q { items = q.items ++ e ∷ [] } else q

abbrev pub pop : Queue → Option ℕ × Queue
pop q = elim q.items [ [] ↦ (none, q) | e ∷ es ↦ (some e, record q { items = es }) ]

pub push_room :
    (q : Queue) (e : ℕ) → length q.items < q.places → (push q e).items ≡ q.items ++ e ∷ []
push_room q e h = rw (lt→ltb (length q.items) q.places h)

pub push_full : (q : Queue) (e : ℕ) → q.places ≤ length q.items → push q e ≡ q
push_full q e h = rw (le→ltb (length q.items) q.places h)

pub push_places : (q : Queue) (e : ℕ) → (push q e).places ≡ q.places
push_places q e = ground arith

pub pop_empty : (q : Queue) → q.items ≡ [] → pop q ≡ (none, q)
pop_empty q h = rw h

pub pop_front :
    (q : Queue) (e : ℕ) (es : List ℕ)
    → q.items ≡ e ∷ es
    → ((pop q).0 ≡ some e) × ((pop q).1.items ≡ es)
pop_front q e es h = (rw h, rw h)

pub pop_places : (q : Queue) → (pop q).1.places ≡ q.places
pop_places q = elim (list_cases q.items) [ inl e ↦ rw e | inr (x, xs, e) ↦ rw e ]

abbrev pub queue : RingOps
queue = record {
  Ring = Queue;
  init = λ n. record { items = []; places = n - 1 };
  enqueue = push;
  dequeue = pop;
  contents = λ q. q.items;
  capacity = λ q. q.places;
  contents-init = λ k. refl;
  capacity-init = λ k. refl;
  contents-enqueue = push_room;
  enqueue_full = push_full;
  capacity-enqueue = push_places;
  dequeue_empty = pop_empty;
  dequeue_front = pop_front;
  capacity-dequeue = pop_places;
}

abbrev three : Queue
three = record { items = 10 ∷ 11 ∷ 12 ∷ []; places = 3 }

init-contents_example :
    (p : Queue) × (mpool_init queue true true (map some (10 ∷ 11 ∷ 12 ∷ 13 ∷ [])) ≡ ready p)
    × (p.items ≡ take (2 ^ 2 - 1) (10 ∷ 11 ∷ 12 ∷ 13 ∷ []))
init-contents_example = init-contents queue 2 (10 ∷ 11 ∷ 12 ∷ 13 ∷ []) (omega arith) refl
