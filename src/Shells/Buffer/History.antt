-- ===== src/Shells/Buffer/History.antt =====
-- RingBuffer (app/shells/buffer.py) against the whole stream that was appended to it.
use environments_api.Common.{
  ℕ, ap, sym, ◌∙◌, ltb→lt, ◌+◌, ◌-◌, ◌≤◌, ◌<◌, ◌≡◌, refl, inl, inr, some, List, [], ◌∷◌, ◌++◌,
  append-nil, append_assoc, arith, ltb, Bool-cases, length, length-append, take, drop, length-drop,
  drop-append, drop-drop, length-take,
}
use environments_api.Common.Int.{pos}
use mathlib.Core.List.{flatten}
use environments_api.Shells.Buffer.{RingBuffer, new, evict, append, read_from, end_of}

-- The buffer holds the end of the stream `all`, and nothing is evicted while there is room.
pub record Holds (b : RingBuffer) (all : List ℕ) : Type 0 where
  pub positive : 0 < b.capacity
  pub start : b.start ≡ length all - b.capacity
  pub bytes : b.bytes ≡ drop b.start all

pub Holds-length :
    {b : RingBuffer} (all : List ℕ)
    → Holds b all
    → (b.start + length b.bytes ≡ length all) × (length b.bytes ≤ b.capacity)
Holds-length {b} all h = omega (arith, ap length h.bytes, length-drop b.start all)

evict-Holds :
    {b : RingBuffer} (all : List ℕ)
    → 0 < b.capacity
    → b.start ≤ length all - b.capacity
    → b.bytes ≡ drop b.start all
    → Holds (evict b (length b.bytes - b.capacity)) all
unfolding evict
evict-Holds {b} all p h e = elim (Bool-cases (ltb 0 excess)) [
  | inl more ↦ rw more (record {
    positive = p;
    start = omega (arith, long, ltb→lt 0 excess more);
    bytes = ap (drop excess) e ∙ drop-drop excess b.start (b.start + excess) all refl;
  })
  | inr fits ↦ rw fits (record { positive = p; start = ground (arith, long, fits); bytes = e })
]
  where
    excess : ℕ
    excess = length b.bytes - b.capacity

    long : length b.bytes ≡ length all - b.start
    long = ap length e ∙ length-drop b.start all

-- Appending keeps the buffer at the end of the stream.
pub append-Holds :
    {b : RingBuffer} {all : List ℕ} (d : List ℕ) → Holds b all → Holds (append b d) (all ++ d)
unfolding append
append-Holds {b} {all} [] h = rw append-nil h
append-Holds {b} {all} (x ∷ d) h =
    evict-Holds (all ++ (x ∷ d)) h.positive (omega (arith, h.start, length-append all (x ∷ d))) (
      ap (λ l. l ++ (x ∷ d)) h.bytes
      ∙ sym (drop-append b.start all (x ∷ d) (omega (arith, h.start))))

unfoldable pub append_all : RingBuffer → List (List ℕ) → RingBuffer
append_all b [] = b
append_all b (d ∷ ds) = append_all (append b d) ds

pub append_all-Holds :
    (b : RingBuffer) (all : List ℕ) (ds : List (List ℕ))
    → Holds b all
    → Holds (append_all b ds) (all ++ flatten ds)
unfolding append_all flatten
append_all-Holds b all [] h = rw append-nil h
append_all-Holds b all (d ∷ ds) h =
    rw (← append_assoc all d (flatten ds))
      (append_all-Holds (append b d) (all ++ d) ds (append-Holds d h))

capacity-append : (b : RingBuffer) (d : List ℕ) → (append b d).capacity ≡ b.capacity
unfolding append
capacity-append b [] = refl
capacity-append b (x ∷ d) = ground arith

capacity-append_all :
    (b : RingBuffer) (ds : List (List ℕ)) → (append_all b ds).capacity ≡ b.capacity
unfolding append_all
capacity-append_all b [] = refl
capacity-append_all b (d ∷ ds) = capacity-append_all (append b d) ds ∙ capacity-append b d

-- A buffer made with `capacity` and given any chunks in order holds exactly the last `capacity`
-- bytes of their concatenation, and its `start` and `end` are the offsets of those bytes.
pub append_all_keeps_tail :
    (capacity : ℕ) {b : RingBuffer} (ds : List (List ℕ))
    → new (pos capacity) ≡ some b
    → let all = flatten ds in
      let r = append_all b ds in
      (r.bytes ≡ drop (length all - capacity) all)
      × (r.start ≡ length all - capacity)
      × (end_of r ≡ length all)
unfolding new end_of
append_all_keeps_tail capacity {b} ds made =
    let fresh : Holds b [] × (b.capacity ≡ capacity) = ground arith in
    let h = append_all-Holds b [] ds fresh.0 in
    let size = capacity-append_all b ds ∙ fresh.1 in
    let from : (append_all b ds).start ≡ length (flatten ds) - capacity =
      h.start ∙ ap (λ k. length (flatten ds) - k) size in
    (h.bytes ∙ ap (λ k. drop k (flatten ds)) from, from, (Holds-length (flatten ds) h).0)

read_from_within :
    (b : RingBuffer) (cursor max_bytes : ℕ)
    → let c = read_from b cursor max_bytes in (b.start ≤ c.cursor) × (c.cursor ≤ end_of b)
unfolding read_from
read_from_within b cursor max_bytes = ground arith

-- A read returns the bytes of the stream at the cursor that it reports, as many as asked for
-- while there are any, and says where the stream ends and where to go on.
pub read_from-Holds :
    {b : RingBuffer} {all : List ℕ} (cursor max_bytes : ℕ)
    → Holds b all
    → let c = read_from b cursor max_bytes in
      (c.bytes ≡ take max_bytes (drop c.cursor all))
      × (c.end ≡ length all)
      × (c.next_cursor ≡ c.cursor + length c.bytes)
      × (c.next_cursor ≤ length all)
unfolding read_from
read_from-Holds {b} {all} cursor max_bytes h = (
  ap (take max_bytes) (
      ap (drop (at - b.start)) h.bytes
      ∙ drop-drop (at - b.start) b.start at all
          (omega (arith, read_from_within b cursor max_bytes))),
  sizes.0,
  refl,
  omega (
    arith,
    sizes.0,
    read_from_within b cursor max_bytes,
    length-take max_bytes (drop (at - b.start) b.bytes),
    length-drop (at - b.start) b.bytes,
  ),
)
  where
    sizes : (b.start + length b.bytes ≡ length all) × (length b.bytes ≤ b.capacity)
    sizes = Holds-length all h

    at : ℕ
    at = (read_from b cursor max_bytes).cursor

-- A cursor inside the stream either still has its bytes, or is told exactly how many are gone.
pub read_from_gap :
    {b : RingBuffer} {all : List ℕ} (cursor max_bytes : ℕ)
    → Holds b all
    → cursor ≤ length all
    → let c = read_from b cursor max_bytes in
      (cursor + c.dropped_bytes ≡ c.cursor) × (c.dropped_bytes ≡ b.start - cursor)
unfolding read_from
read_from_gap {b} {all} cursor max_bytes h k = ground (arith, Holds-length all h)
