-- ===== src/Shared/Queue/Steps.antt =====
-- One load or store at a time of `push_config_write` and `pop_config_write`, in rm32/src/
-- shared_state.rs: an interrupt may fall between any two of them. The accesses are taken in one
-- order for both sides, as their acquire and release orderings on a single core give it.
use rm.Prelude.{ℕ, ◌≡◌, ◌≢◌, true, List, [], ◌∷◌, ◌++◌, get_or, set}
use rm.Shared.Queue.{Queue, empty_queue, next_index}

-- Where the producer stands in a push of a word, with what it has loaded.
pub data Producer : Type 0 where
  waiting : Producer
  loaded_head : ℕ → ℕ → Producer
  has_room : ℕ → ℕ → Producer
  no_room : Producer
  stored : ℕ → ℕ → Producer

-- Where the consumer stands in a pop.
pub data Consumer : Type 0 where
  idle : Consumer
  loaded_tail : ℕ → Consumer
  has_word : ℕ → Consumer
  loaded_word : ℕ → ℕ → Consumer

-- The queue, both sides, and the words that have been pushed and popped so far.
pub record System : Type 0 where
  pub queue : Queue
  pub producer : Producer
  pub consumer : Consumer
  pub sent : List ℕ
  pub received : List ℕ

pub data Step : System → System → Type 0 where
  load_head :
      {q : Queue} {c : Consumer} {ss rs : List ℕ} (w : ℕ)
      → Step
          record { queue = q; producer = waiting; consumer = c; sent = ss; received = rs }
          record {
            queue = q;
            producer = loaded_head w q.head;
            consumer = c;
            sent = ss;
            received = rs;
          }
  find_room :
      {q : Queue} {c : Consumer} {ss rs : List ℕ} {w h : ℕ}
      → next_index h ≢ q.tail
      → Step
          record { queue = q; producer = loaded_head w h; consumer = c; sent = ss; received = rs }
          record { queue = q; producer = has_room w h; consumer = c; sent = ss; received = rs }
  find_full :
      {q : Queue} {c : Consumer} {ss rs : List ℕ} {w h : ℕ}
      → next_index h ≡ q.tail
      → Step
          record { queue = q; producer = loaded_head w h; consumer = c; sent = ss; received = rs }
          record { queue = q; producer = no_room; consumer = c; sent = ss; received = rs }
  raise_overflow :
      {q : Queue} {c : Consumer} {ss rs : List ℕ}
      → Step
          record { queue = q; producer = no_room; consumer = c; sent = ss; received = rs }
          record {
            queue = record q { overflow = true };
            producer = waiting;
            consumer = c;
            sent = ss;
            received = rs;
          }
  store_slot :
      {q : Queue} {c : Consumer} {ss rs : List ℕ} {w h : ℕ}
      → Step
          record { queue = q; producer = has_room w h; consumer = c; sent = ss; received = rs }
          record {
            queue = record q { slots = set q.slots h w };
            producer = stored w h;
            consumer = c;
            sent = ss;
            received = rs;
          }
  store_head :
      {q : Queue} {c : Consumer} {ss rs : List ℕ} {w h : ℕ}
      → Step
          record { queue = q; producer = stored w h; consumer = c; sent = ss; received = rs }
          record {
            queue = record q { head = next_index h };
            producer = waiting;
            consumer = c;
            sent = ss ++ w ∷ [];
            received = rs;
          }
  load_tail :
      {q : Queue} {p : Producer} {ss rs : List ℕ}
      → Step
          record { queue = q; producer = p; consumer = idle; sent = ss; received = rs }
          record {
            queue = q;
            producer = p;
            consumer = loaded_tail q.tail;
            sent = ss;
            received = rs;
          }
  find_empty :
      {q : Queue} {p : Producer} {ss rs : List ℕ} {t : ℕ}
      → t ≡ q.head
      → Step
          record { queue = q; producer = p; consumer = loaded_tail t; sent = ss; received = rs }
          record { queue = q; producer = p; consumer = idle; sent = ss; received = rs }
  find_word :
      {q : Queue} {p : Producer} {ss rs : List ℕ} {t : ℕ}
      → t ≢ q.head
      → Step
          record { queue = q; producer = p; consumer = loaded_tail t; sent = ss; received = rs }
          record { queue = q; producer = p; consumer = has_word t; sent = ss; received = rs }
  load_word :
      {q : Queue} {p : Producer} {ss rs : List ℕ} {t : ℕ}
      → Step
          record { queue = q; producer = p; consumer = has_word t; sent = ss; received = rs }
          record {
            queue = q;
            producer = p;
            consumer = loaded_word t (get_or q.slots t 0);
            sent = ss;
            received = rs;
          }
  store_tail :
      {q : Queue} {p : Producer} {ss rs : List ℕ} {t w : ℕ}
      → Step
          record { queue = q; producer = p; consumer = loaded_word t w; sent = ss; received = rs }
          record {
            queue = record q { tail = next_index t };
            producer = p;
            consumer = idle;
            sent = ss;
            received = rs ++ w ∷ [];
          }

abbrev pub start : System
start = record {
  queue = empty_queue;
  producer = waiting;
  consumer = idle;
  sent = [];
  received = [];
}

pub data Reach : System → Type 0 where
  here : Reach start
  later : {s t : System} → Reach s → Step s t → Reach t
