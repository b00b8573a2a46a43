-- ===== src/Dshot/Frame/Edges.antt =====
-- `decode_frame` of rm32/src/dshot.rs: a free-running timer may wrap, and a clean waveform is read.
use rm.Prelude.{
  ℕ, zero, suc, ◌+◌, ◌*◌, ◌/◌, ◌%◌, ◌≤◌, ◌<◌, ◌≡◌, refl, sym, ap, ◌∙◌, arith, Bool, true, false,
  ltb, leb, ◌||◌, if◌then◌else◌, List, [], ◌∷◌, length, get_or, ◌==◌, ◌^◌, u16, u32, sub32, shr,
}
use native.Mathlib.Nat.{pow-suc, div-div-eq-div-mul, div-le_self}
use rm.Dshot.Frame.{unpack, pulses, frame_time, decode_frame}

abbrev pub AllU32 : List ℕ → Type 0
AllU32 [] = Unit {0}
AllU32 (x ∷ xs) = (x < 4294967296) × AllU32 xs

-- The same edges against a timer that stands `k` counts further on.
abbrev pub later : ℕ → List ℕ → List ℕ
later k [] = []
later k (x ∷ xs) = u32 (x + k) ∷ later k xs

sub32-later :
    (a b k : ℕ) → a < 4294967296 → b < 4294967296 → sub32 (u32 (a + k)) (u32 (b + k)) ≡ sub32 a b
sub32-later a b k ha hb = omega arith

pulses-later :
    (half packet k : ℕ) (xs : List ℕ)
    → AllU32 xs
    → pulses half packet (later k xs) ≡ pulses half packet xs
unfolding pulses
pulses-later half packet k [] h = refl
pulses-later half packet k (a ∷ []) h = refl
pulses-later half packet k (a ∷ (b ∷ xs)) (ha, (hb, hx)) =
    rw (sub32-later b a k hb ha)
      (pulses-later half (u16 (packet * 2) + (if ltb half (u16 (sub32 b a)) then 1 else 0)) k xs hx)

get_or-later :
    (k i : ℕ) (xs : List ℕ) → i < length xs → get_or (later k xs) i 0 ≡ u32 (get_or xs i 0 + k)
get_or-later k i [] h = elim h [ ]
get_or-later k zero (x ∷ xs) h = refl
get_or-later k (suc i) (x ∷ xs) h = get_or-later k i xs (omega arith)

get_or-AllU32 : (i : ℕ) (xs : List ℕ) → AllU32 xs → get_or xs i 0 < 4294967296
get_or-AllU32 i [] h = omega arith
get_or-AllU32 zero (x ∷ xs) h = h.0
get_or-AllU32 (suc i) (x ∷ xs) h = get_or-AllU32 i xs h.1

-- Where the 32-bit capture timer stands when a frame arrives makes no difference, also if it wraps
-- in the middle of the frame.
pub decode_frame-later :
    (edges : List ℕ) (k low high : ℕ) (bidirectional : Bool)
    → length edges ≡ 32
    → AllU32 edges
    → decode_frame (later k edges) low high bidirectional
      ≡ decode_frame edges low high bidirectional
unfolding decode_frame
decode_frame-later edges k low high b n h =
    rw
      (
        get_or-later k 31 edges (omega arith),
        get_or-later k 0 edges (omega arith),
        sub32-later (get_or edges 31 0) (get_or edges 0 0) k (get_or-AllU32 31 edges h)
            (get_or-AllU32 0 edges h),
      )
      (rw (pulses-later (shr (frame_time edges) 5) 0 k edges h) refl)

-- A clean waveform: a pulse of `hi` or `lo` counts at the start of each bit time of `period`.
abbrev pub width : ℕ → ℕ → Bool → ℕ
width hi lo bit = if bit then hi else lo

abbrev pub waveform : ℕ → ℕ → ℕ → ℕ → List Bool → List ℕ
waveform t period hi lo [] = []
waveform t period hi lo (b ∷ bs) =
    u32 t ∷ (u32 (t + width hi lo b) ∷ waveform (t + period) period hi lo bs)

abbrev pub word : ℕ → List Bool → ℕ
word acc [] = acc
word acc (b ∷ bs) = word (u16 (acc * 2) + (if b then 1 else 0)) bs

pulses-waveform :
    (half acc t period hi lo : ℕ) (bs : List Bool)
    → half < hi
    → hi < 65536
    → lo ≤ half
    → pulses half acc (waveform t period hi lo bs) ≡ word acc bs
unfolding pulses
pulses-waveform half acc t period hi lo [] p q r = refl
pulses-waveform half acc t period hi lo (true ∷ bs) p q r =
    let e : ltb half (u16 (sub32 (u32 (t + hi)) (u32 t))) ≡ true = ground arith in
    rw e (pulses-waveform half (u16 (acc * 2) + 1) (t + period) period hi lo bs p q r)
pulses-waveform half acc t period hi lo (false ∷ bs) p q r =
    let e : ltb half (u16 (sub32 (u32 (t + lo)) (u32 t))) ≡ false = ground arith in
    rw e (pulses-waveform half (u16 (acc * 2) + 0) (t + period) period hi lo bs p q r)

-- The bits of a packet, the most significant first.
unfoldable pub bits : ℕ → ℕ → List Bool
bits zero p = []
bits (suc n) p = (p / 2 ^ n % 2 == 1) ∷ bits n p

word-bits : (n p : ℕ) → p < 65536 → word (p / 2 ^ n) (bits n p) ≡ p
unfolding bits
word-bits zero p h = omega arith
word-bits (suc n) p h =
    rw (step (p / 2 ^ suc n) (p / 2 ^ n) (rw pow-suc (sym (div-div-eq-div-mul p (2 ^ n) 2))) bound)
      (word-bits n p h)
  where
    bound : p / 2 ^ n < 65536
    bound = omega (arith, div-le_self p (2 ^ n))

    step : (a q : ℕ) → a ≡ q / 2 → q < 65536 → word a ((q % 2 == 1) ∷ bits n p) ≡ word q (bits n p)
    step a q e hq =
        let f : u16 (a * 2) + (if q % 2 == 1 then 1 else 0) ≡ q = ground arith in
        ap (λ x. word x (bits n p)) f

decode_waveform :
    (t period hi lo low high : ℕ) (bs : List Bool) (bidirectional : Bool)
    → let edges = waveform t period hi lo bs in
      let time = frame_time edges in
      low < time
      → time < high
      → lo ≤ time / 32
      → time / 32 < hi
      → hi < 65536
      → decode_frame edges low high bidirectional ≡ unpack (word 0 bs) bidirectional
unfolding decode_frame
decode_waveform t period hi lo low high bs b early late l h w =
    let edges = waveform t period hi lo bs in
    let time = frame_time edges in
    let inside : leb time low || leb high time ≡ false = ground arith in
    rw (inside, pulses-waveform (time / 32) 0 t period hi lo bs h w l)

-- A clean waveform of a packet is decoded as the packet itself, if its frame time is inside the
-- window and the decision level, a 32nd of the frame time, separates the two pulse widths.
pub decode_frame-waveform :
    (t period hi lo low high p : ℕ) (bidirectional : Bool)
    → p < 65536
    → let edges = waveform t period hi lo (bits 16 p) in
      let time = frame_time edges in
      low < time
      → time < high
      → lo ≤ time / 32
      → time / 32 < hi
      → hi < 65536
      → decode_frame edges low high bidirectional ≡ unpack p bidirectional
decode_frame-waveform t period hi lo low high p b hp early late l h w =
    decode_waveform t period hi lo low high (bits 16 p) b early late l h w
    ∙ ap (λ q. unpack q b) (top ∙ word-bits 16 p hp)
  where
    top : word 0 (bits 16 p) ≡ word (p / 65536) (bits 16 p)
    top = let e : 0 ≡ p / 65536 = omega arith in ap (λ a. word a (bits 16 p)) e
