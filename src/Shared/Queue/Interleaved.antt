-- ===== src/Shared/Queue/Interleaved.antt =====
-- The write queue of rm32/src/shared_state.rs under every interleaving of a pushing interrupt and a
-- popping main loop.
use rm.Prelude.{
  true, ℕ, ◌+◌, ◌%◌, ◌≤◌, ◌<◌, ◌≡◌, arith, refl, sym, ap, ◌∙◌, List, [], ◌∷◌, ◌++◌, length, get_or,
  set, get_or-set, length-set,
}
use rm.Shared.Queue.{Queue, empty_queue, next_index}
use rm.Shared.Queue.Fifo.{
  IsQueue, length-window, window, fill, contents, window-set, window-pop, window-snoc,
}
use rm.Shared.Queue.Steps.{
  Producer, waiting, loaded_head, has_room, no_room, stored, Consumer, idle, loaded_tail, has_word,
  loaded_word, System, Step, load_head, find_room, find_full, raise_overflow, store_slot,
  store_head, load_tail, find_empty, find_word, load_word, store_tail, start, Reach, here, later,
}

-- What the loaded values of a side still say of the queue, whatever the other side has done since.
abbrev pub IsFresh : Queue → Producer → Type 0
IsFresh q (loaded_head w h) = h ≡ q.head
IsFresh q (has_room w h) = (h ≡ q.head) × (fill q.head q.tail < 8)
IsFresh q (stored w h) = (h ≡ q.head) × (fill q.head q.tail < 8) × (get_or q.slots h 0 ≡ w)
IsFresh q _ = Unit {0}

abbrev pub IsCurrent : Queue → Consumer → Type 0
IsCurrent q (loaded_tail t) = t ≡ q.tail
IsCurrent q (has_word t) = (t ≡ q.tail) × (0 < fill q.head q.tail)
IsCurrent q (loaded_word t w) = (t ≡ q.tail) × (0 < fill q.head q.tail) × (get_or q.slots t 0 ≡ w)
IsCurrent q _ = Unit {0}

-- The words sent are those received and those queued, in order.
pub record Inv (s : System) : Type 0 where
  pub good : IsQueue s.queue
  pub order : s.sent ≡ s.received ++ contents s.queue
  pub fresh : IsFresh s.queue s.producer
  pub current : IsCurrent s.queue s.consumer

slot_keeps :
    (q : Queue) (c : Consumer) (w : ℕ)
    → IsQueue q
    → fill q.head q.tail < 8
    → IsCurrent q c
    → IsCurrent (record q { slots = set q.slots q.head w }) c
slot_keeps q idle w g r h = tt
slot_keeps q (loaded_tail t) w g r h = h
slot_keeps q (has_word t) w g r h = h
slot_keeps q (loaded_word t v) w g r h = (h.0, h.1, ground (arith, get_or-set q.slots q.head t w))

head_keeps :
    (q : Queue) (c : Consumer)
    → IsQueue q
    → fill q.head q.tail < 8
    → IsCurrent q c
    → IsCurrent (record q { head = next_index q.head }) c
head_keeps q idle g r h = tt
head_keeps q (loaded_tail t) g r h = h
head_keeps q (has_word t) g r h = (h.0, omega arith)
head_keeps q (loaded_word t v) g r h = (h.0, omega arith, h.2)

tail_keeps :
    (q : Queue) (p : Producer)
    → IsQueue q
    → 0 < fill q.head q.tail
    → IsFresh q p
    → IsFresh (record q { tail = next_index q.tail }) p
tail_keeps q waiting g r h = tt
tail_keeps q (loaded_head w i) g r h = h
tail_keeps q (has_room w i) g r h = (h.0, omega arith)
tail_keeps q no_room g r h = tt
tail_keeps q (stored w i) g r h = (h.0, omega arith, h.2)

last_index : (h t : ℕ) → h < 9 → t < 9 → (t + fill h t) % 9 ≡ h
last_index h t a b = omega arith

-- The store of the head index publishes the word in the slot.
published :
    (q : Queue) (w : ℕ)
    → IsQueue q
    → fill q.head q.tail < 8
    → get_or q.slots q.head 0 ≡ w
    → contents (record q { head = next_index q.head }) ≡ contents q ++ w ∷ []
published q w g r e =
    ap (window q.slots q.tail) (omega (arith, g.head_in, g.tail_in, r))
    ∙ (window-snoc (fill q.head q.tail) q.slots q.tail g.tail_in
        ∙ ap (λ x. contents q ++ x ∷ [])
            (ap (λ k. get_or q.slots k 0) (last_index q.head q.tail g.head_in g.tail_in) ∙ e))

overflow_keeps :
    (q : Queue) (c : Consumer) → IsCurrent q c → IsCurrent (record q { overflow = true }) c
overflow_keeps q idle h = tt
overflow_keeps q (loaded_tail t) h = h
overflow_keeps q (has_word t) h = h
overflow_keeps q (loaded_word t w) h = h

-- The slot that is written is not queued.
unread :
    (q : Queue) (w : ℕ)
    → IsQueue q
    → fill q.head q.tail < 8
    → contents (record q { slots = set q.slots q.head w }) ≡ contents q
unread q w g r =
    window-set (fill q.head q.tail) q.slots q.tail q.head w g.size g.tail_in g.head_in (omega arith)

-- The store of the tail index takes the word that was loaded.
taken :
    (q : Queue) (w : ℕ)
    → IsQueue q
    → 0 < fill q.head q.tail
    → get_or q.slots q.tail 0 ≡ w
    → contents q ≡ w ∷ contents (record q { tail = next_index q.tail })
taken q w g r e =
    window-pop q.slots q.head q.tail g.tail_in g.head_in r
    ∙ ap (λ x. x ∷ contents (record q { tail = next_index q.tail })) e

append_assoc : (xs ys zs : List ℕ) → (xs ++ ys) ++ zs ≡ xs ++ (ys ++ zs)
append_assoc [] ys zs = refl
append_assoc (x ∷ xs) ys zs = ap (λ r. x ∷ r) (append_assoc xs ys zs)

Step-Inv : {s t : System} → Step s t → Inv s → Inv t
Step-Inv (load_head w) i = record {
  good = i.good;
  order = i.order;
  fresh = refl;
  current = i.current;
}
Step-Inv (find_room ne) i = record {
  good = i.good;
  order = i.order;
  fresh = (i.fresh, omega (arith, ne, i.fresh, i.good.head_in, i.good.tail_in));
  current = i.current;
}
Step-Inv (find_full e) i = record {
  good = i.good;
  order = i.order;
  fresh = tt;
  current = i.current;
}
Step-Inv (raise_overflow {q} {c}) i = record {
  good = record { size = i.good.size; head_in = i.good.head_in; tail_in = i.good.tail_in };
  order = i.order;
  fresh = tt;
  current = overflow_keeps q c i.current;
}
Step-Inv (store_slot {q} {c} {ss} {rs} {w} {h}) i = rw (i.fresh.0) (record {
  good = record {
    size = length-set q.slots q.head w ∙ i.good.size;
    head_in = i.good.head_in;
    tail_in = i.good.tail_in;
  };
  order = i.order ∙ ap (λ ws. rs ++ ws) (sym (unread q w i.good i.fresh.1));
  fresh = (refl, i.fresh.1, ground (arith, get_or-set q.slots q.head q.head w, i.good));
  current = slot_keeps q c w i.good i.fresh.1 i.current;
})
Step-Inv (store_head {q} {c} {ss} {rs} {w} {h}) i = rw (i.fresh.0) (record {
  good = record { size = i.good.size; head_in = omega arith; tail_in = i.good.tail_in };
  order =
      ap (λ ws. ws ++ w ∷ []) i.order
      ∙ (append_assoc rs (contents q) (w ∷ [])
          ∙ ap (λ ws. rs ++ ws)
              (sym (
                published q w i.good i.fresh.1
                  (ap (λ k. get_or q.slots k 0) (sym i.fresh.0) ∙ i.fresh.2))));
  fresh = tt;
  current = head_keeps q c i.good i.fresh.1 i.current;
})
Step-Inv load_tail i = record { good = i.good; order = i.order; fresh = i.fresh; current = refl }
Step-Inv (find_empty e) i = record { good = i.good; order = i.order; fresh = i.fresh; current = tt }
Step-Inv (find_word ne) i = record {
  good = i.good;
  order = i.order;
  fresh = i.fresh;
  current = (i.current, omega (arith, ne, i.current, i.good.head_in, i.good.tail_in));
}
Step-Inv load_word i = record {
  good = i.good;
  order = i.order;
  fresh = i.fresh;
  current = (i.current.0, i.current.1, refl);
}
Step-Inv (store_tail {q} {p} {ss} {rs} {t} {w}) i = rw (i.current.0) (record {
  good = record { size = i.good.size; head_in = i.good.head_in; tail_in = omega arith };
  order =
      i.order
      ∙ (ap (λ ws. rs ++ ws)
            (taken q w i.good i.current.1
              (ap (λ k. get_or q.slots k 0) (sym i.current.0) ∙ i.current.2))
          ∙ sym (append_assoc rs (w ∷ []) (contents (record q { tail = next_index q.tail }))));
  fresh = tail_keeps q p i.good i.current.1 i.fresh;
  current = tt;
})

start-Inv : Inv start
unfolding empty_queue window
start-Inv = record {
  good = record { size = refl; head_in = omega arith; tail_in = omega arith };
  order = refl;
  fresh = tt;
  current = tt;
}

Reach-Inv : {s : System} → Reach s → Inv s
Reach-Inv here = start-Inv
Reach-Inv (later r st) = Step-Inv st (Reach-Inv r)

-- However the loads and stores of the two sides interleave, no word is lost, duplicated, reordered
-- or torn: the words pushed so far are the words popped so far followed by the queued ones, of which
-- there are at most eight, and the nine slots and both indices stay in range.
pub interleaved_fifo :
    (s : System)
    → Reach s
    → (s.sent ≡ s.received ++ contents s.queue) × (length (contents s.queue) ≤ 8) × IsQueue s.queue
interleaved_fifo s r =
    let i = Reach-Inv r in
    (
      i.order,
      omega (arith, length-window s.queue.slots s.queue.tail (fill s.queue.head s.queue.tail)),
      i.good,
    )
