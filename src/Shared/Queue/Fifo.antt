-- ===== src/Shared/Queue/Fifo.antt =====
-- The queue of rm32/src/shared_state.rs is a FIFO of at most eight words.
use rm.Prelude.{
  ℕ, zero, suc, ◌+◌, ◌-◌, ◌/◌, ◌%◌, ◌≤◌, ◌<◌, ◌≡◌, arith, refl, ap, ap₂, ◌∙◌, Bool, not, ◌||◌, true,
  false, Option, none, some, List, [], ◌∷◌, ◌++◌, length, get_or, set, get_or-set, length-set, ◌==◌,
  if◌then◌else◌, u8,
}
use native.Mathlib.Decide.{dec_lt}
use rm.Shared.Queue.{Queue, packed, next_index, push_config_write, pop_config_write}

-- The words from an index on, around the end.
unfoldable pub window : List ℕ → ℕ → ℕ → List ℕ
window xs i zero = []
window xs i (suc n) = get_or xs i 0 ∷ window xs (next_index i) n

-- How many words are queued, and which, oldest first.
abbrev pub fill : ℕ → ℕ → ℕ
fill head tail = (head + 9 - tail) % 9

abbrev pub contents : Queue → List ℕ
contents q = window q.slots q.tail (fill q.head q.tail)

pub record IsQueue (q : Queue) : Type 0 where
  pub size : length q.slots ≡ 9
  pub head_in : q.head < 9
  pub tail_in : q.tail < 9

pub length-window : (xs : List ℕ) (i n : ℕ) → length (window xs i n) ≡ n
unfolding window
length-window xs i zero = refl
length-window xs i (suc n) = ap suc (length-window xs (next_index i) n)

-- A write outside the window leaves it alone.
pub window-set :
    (n : ℕ) (xs : List ℕ) (i h v : ℕ)
    → length xs ≡ 9
    → i < 9
    → h < 9
    → n ≤ fill h i
    → window (set xs h v) i n ≡ window xs i n
unfolding window
window-set zero xs i h v l a b le = refl
window-set (suc n) xs i h v l a b le =
    ap₂ (λ x ys. x ∷ ys) (ground (arith, get_or-set xs h i v))
      (window-set n xs (next_index i) h v l (omega arith) b (omega arith))

-- The last word of a window.
pub window-snoc :
    (n : ℕ) (xs : List ℕ) (i : ℕ)
    → i < 9
    → window xs i (suc n) ≡ window xs i n ++ get_or xs ((i + n) % 9) 0 ∷ []
unfolding window
window-snoc zero xs i a = ap (λ k. get_or xs k 0 ∷ []) (omega arith)
window-snoc (suc n) xs i a =
    ap (λ ys. get_or xs i 0 ∷ ys)
      (window-snoc n xs (next_index i) (omega arith)
        ∙ ap (λ k. window xs (next_index i) n ++ get_or xs k 0 ∷ []) (omega arith))

-- A word stored behind the last one joins the window.
pub window-push :
    (xs : List ℕ) (h i v : ℕ)
    → length xs ≡ 9
    → i < 9
    → h < 9
    → fill h i < 8
    → window (set xs h v) i (fill (next_index h) i) ≡ window xs i (fill h i) ++ v ∷ []
window-push xs h i v l a b lt =
    ap (window (set xs h v) i) (omega arith)
    ∙ (window-snoc (fill h i) (set xs h v) i a
        ∙ ap₂ (λ ys x. ys ++ x ∷ []) (window-set (fill h i) xs i h v l a b (omega arith))
            (ground (arith, get_or-set xs h ((i + fill h i) % 9) v)))

-- A pop takes the first word of the window.
pub window-pop :
    (xs : List ℕ) (h i : ℕ)
    → i < 9
    → h < 9
    → 0 < fill h i
    → window xs i (fill h i) ≡ get_or xs i 0 ∷ window xs (next_index i) (fill h (next_index i))
unfolding window
window-pop xs h i a b lt = step (fill h (next_index i)) (omega arith)
  where
    step :
        (n : ℕ)
        → fill h i ≡ suc n
        → window xs i (fill h i) ≡ get_or xs i 0 ∷ window xs (next_index i) n
    step n e = ap (window xs i) e

window-none : (xs : List ℕ) (h i : ℕ) → fill h i ≡ 0 → window xs i (fill h i) ≡ []
unfolding window
window-none xs h i e = ap (window xs i) e

-- The abstract queue: a list of at most eight pairs of bytes.
pub fifo_push : List ℕ → ℕ → List ℕ × Bool
fifo_push ws w = if length ws == 8 then (ws, false) else (ws ++ w ∷ [], true)

pub fifo_pop : List ℕ → List ℕ × Option (ℕ × ℕ)
fifo_pop [] = ([], none)
fifo_pop (w ∷ ws) = (ws, some (u8 (w / 256), u8 w))

fifo_push-window :
    (xs : List ℕ) (i n w : ℕ)
    → fifo_push (window xs i n) w
      ≡ (if n == 8 then (window xs i n, false) else (window xs i n ++ w ∷ [], true))
unfolding fifo_push
fifo_push-window xs i n w =
    ap (λ k. if k == 8 then (window xs i n, false) else (window xs i n ++ w ∷ [], true))
      (length-window xs i n)

pushed :
    (q : Queue) (offset value : ℕ)
    → IsQueue q
    → let w = packed offset value in
      let r = push_config_write q offset value in (contents r.0, r.1) ≡ fifo_push (contents q) w
unfolding push_config_write
pushed q offset value i = elim (dec_lt (fill q.head q.tail) 8) [
  | yes room ↦ ground (
    arith,
    fifo_push-window q.slots q.tail (fill q.head q.tail) (packed offset value),
    window-push q.slots q.head q.tail (packed offset value) i.size i.tail_in i.head_in room,
  )
  | no full ↦
      ground (arith, fifo_push-window q.slots q.tail (fill q.head q.tail) (packed offset value))
]

popped :
    (q : Queue)
    → IsQueue q
    → let s = pop_config_write q in (contents s.0, s.1) ≡ fifo_pop (contents q)
unfolding pop_config_write fifo_pop window
popped q i = elim (dec_lt 0 (fill q.head q.tail)) [
  | yes some_left ↦
      ground (arith, ap fifo_pop (window-pop q.slots q.head q.tail i.tail_in i.head_in some_left))
  | no none_left ↦
      let empty = window-none q.slots q.head q.tail (omega (arith, none_left)) in
      ground (arith, empty, ap fifo_pop empty)
]

-- On every queue with its indices in range, a push and a pop do to the queued words what the list
-- of at most eight does, with the same answer, and keep the indices in range; the overflow flag rises
-- exactly with a refused push; and a byte pair comes out of its word as it went in.
pub queue_refines_fifo :
    (q : Queue) (offset value : ℕ)
    → IsQueue q
    → offset < 256
    → value < 256
    → (IsQueue (push_config_write q offset value).0
        × ((contents (push_config_write q offset value).0, (push_config_write q offset value).1)
            ≡ fifo_push (contents q) (packed offset value)))
      × (IsQueue (pop_config_write q).0
          × ((contents (pop_config_write q).0, (pop_config_write q).1) ≡ fifo_pop (contents q)))
      × ((push_config_write q offset value).0.overflow
          ≡ (q.overflow || not (push_config_write q offset value).1))
      × (u8 (packed offset value / 256) ≡ offset)
      × (u8 (packed offset value) ≡ value)
unfolding push_config_write pop_config_write
queue_refines_fifo q offset value i ho hv = (
  (ground (arith, length-set q.slots q.head (packed offset value)), pushed q offset value i),
  (ground (arith), popped q i),
  ground arith,
  omega arith,
  omega arith,
)
