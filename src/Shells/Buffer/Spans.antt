-- ===== src/Shells/Buffer/Spans.antt =====
-- RingBuffer.read_span and a polling reader (app/shells/buffer.py): every byte is accounted for.
use environments_api.Common.{
  ℕ, List, Bool, min, ◌≤◌, length, ◌≡◌, some, ◌-◌, if◌then◌else◌, ◌+◌, arith, true, false, refl,
  length-take, ◌∷◌, ◌++◌, append-nil, [], drop, append_assoc, length-append,
}
use environments_api.Common.Int.{pos, max_ℤ, min_ℤ, ◌-ℤ◌, ◌+ℤ◌}
use environments_api.Shells.Buffer.{RingBuffer, OutputChunk, append, read_from, read_span}
use environments_api.Shells.Buffer.History.{Holds, append-Holds, read_from-Holds, read_from_gap}

-- A span read at natural arguments is the read that its cap and its direction choose.
abbrev span_length : ℕ → ℕ → ℕ → ℕ
span_length start end max_bytes = min (end - start) max_bytes

abbrev span_cursor : ℕ → ℕ → ℕ → Bool → ℕ
span_cursor start end max_bytes tail = if tail then end - span_length start end max_bytes else start

span_length_ℤ :
    (start end max_bytes : ℕ)
    → start ≤ end
    → max_ℤ (pos 0) (min_ℤ (pos end -ℤ pos start) (pos max_bytes))
      ≡ pos (span_length start end max_bytes)
span_length_ℤ start end max_bytes le = ground arith

span_cursor_ℤ :
    (start end max_bytes : ℕ) (tail : Bool)
    → start ≤ end
    → (if tail then pos end -ℤ pos (span_length start end max_bytes) else pos start)
      ≡ pos (span_cursor start end max_bytes tail)
span_cursor_ℤ start end max_bytes true le = ground arith
span_cursor_ℤ start end max_bytes false le = refl

span_cursor-le-end :
    (start end max_bytes : ℕ) (tail : Bool)
    → start ≤ end
    → span_cursor start end max_bytes tail ≤ end
span_cursor-le-end start end max_bytes true le = omega arith
span_cursor-le-end start end max_bytes false le = omega arith

length-read_from :
    (b : RingBuffer) (cursor max_bytes : ℕ)
    → length (read_from b cursor max_bytes).bytes ≤ max_bytes
unfolding read_from
length-read_from b cursor max_bytes =
    let from = (read_from b cursor max_bytes).cursor in
    omega (arith, length-take max_bytes (drop (from - b.start) b.bytes))

abbrev span_cut : RingBuffer → ℕ → ℕ → ℕ → Bool → ℕ
span_cut b start end max_bytes tail =
    let cursor = span_cursor start end max_bytes tail in
    (cursor - start) + (end - (read_from b cursor (span_length start end max_bytes)).next_cursor)

cut_ℤ :
    (cursor start end next : ℕ)
    → start ≤ cursor
    → (pos cursor -ℤ pos start) +ℤ max_ℤ (pos 0) (pos end -ℤ pos next)
      ≡ pos ((cursor - start) + (end - next))
cut_ℤ cursor start end next le = ground arith

start-le-span_cursor :
    (start end max_bytes : ℕ) (tail : Bool)
    → start ≤ end
    → start ≤ span_cursor start end max_bytes tail
start-le-span_cursor start end max_bytes true le = omega arith
start-le-span_cursor start end max_bytes false le = omega arith

read_span_lem :
    (b : RingBuffer) (start end max_bytes : ℕ) (tail : Bool)
    → start ≤ end
    → read_span b (pos start) (pos end) (pos max_bytes) tail
      ≡ some
          (record (read_from b
            (span_cursor start end max_bytes tail)
            (span_length start end max_bytes)) {
              truncated_bytes = pos (span_cut b start end max_bytes tail);
            })
unfolding read_span
read_span_lem b start end max_bytes tail le = rw (
  span_length_ℤ start end max_bytes le,
  span_cursor_ℤ start end max_bytes tail le,
  cut_ℤ (span_cursor start end max_bytes tail) start end
      (read_from b (span_cursor start end max_bytes tail)
        (span_length start end max_bytes)).next_cursor
      (start-le-span_cursor start end max_bytes tail le),
)

-- A span inside the stream is read with no error, and returned, evicted and truncated bytes make
-- up at least the whole span; they make up exactly the span unless eviction has moved the read
-- past its end. It never returns more than `max_bytes`.
pub read_span_accounts :
    {b : RingBuffer} {all : List ℕ} (start end max_bytes : ℕ) (tail : Bool)
    → Holds b all
    → start ≤ end
    → end ≤ length all
    → (c : OutputChunk) × (t : ℕ) × (read_span b (pos start) (pos end) (pos max_bytes) tail
        ≡ some c)
      × (c.truncated_bytes ≡ pos t)
      × (end - start ≤ c.dropped_bytes + length c.bytes + t)
      × (c.next_cursor ≤ end → c.dropped_bytes + length c.bytes + t ≡ end - start)
      × (length c.bytes ≤ max_bytes)
read_span_accounts {b} {all} start end max_bytes tail h le inside = (
  record c { truncated_bytes = pos (span_cut b start end max_bytes tail) },
  span_cut b start end max_bytes tail,
  read_span_lem b start end max_bytes tail le,
  refl,
  omega (arith, gap, at, low, high),
  λ within. omega (arith, gap, at, low, high),
  omega (arith, length-read_from b cursor size),
)
  where
    size : ℕ
    size = span_length start end max_bytes

    cursor : ℕ
    cursor = span_cursor start end max_bytes tail

    c : OutputChunk
    c = read_from b cursor size

    low : start ≤ cursor
    low = start-le-span_cursor start end max_bytes tail le

    high : cursor ≤ end
    high = span_cursor-le-end start end max_bytes tail le

    gap : (cursor + c.dropped_bytes ≡ c.cursor) × (c.dropped_bytes ≡ b.start - cursor)
    gap = read_from_gap cursor size h (omega (arith, high))

    at : c.next_cursor ≡ c.cursor + length c.bytes
    at = (read_from-Holds cursor size h).2

-- What a poller has seen: `cursor` is where it goes on, `delivered` and `dropped` add up.
pub record Poller : Type 0 where
  pub buffer : RingBuffer
  pub cursor : ℕ
  pub delivered : ℕ
  pub dropped : ℕ

pub data PollStep : Type 0 where
  wrote : List ℕ → PollStep
  polled : ℕ → PollStep

pub poll_step : Poller → PollStep → Poller
poll_step p (wrote d) = record p { buffer = append p.buffer d }
poll_step p (polled n) =
    let c = read_from p.buffer p.cursor n in
    record p {
      cursor = c.next_cursor;
      delivered = p.delivered + length c.bytes;
      dropped = p.dropped + c.dropped_bytes;
    }

pub poll_run : Poller → List PollStep → Poller
poll_run p [] = p
poll_run p (s ∷ ss) = poll_run (poll_step p s) ss

-- The poller stands inside the stream, and every offset before it was delivered or counted.
record Balanced (from : ℕ) (p : Poller) (all : List ℕ) : Type 0 where
  held : Holds p.buffer all
  inside : p.cursor ≤ length all
  balance : from + p.delivered + p.dropped ≡ p.cursor

abbrev pub written : List PollStep → List ℕ
written [] = []
written (wrote d ∷ ss) = d ++ written ss
written (polled n ∷ ss) = written ss

poll_run-Balanced :
    (from : ℕ) (p : Poller) (all : List ℕ) (ss : List PollStep)
    → Balanced from p all
    → Balanced from (poll_run p ss) (all ++ written ss)
unfolding poll_run poll_step
poll_run-Balanced from p all [] h = rw append-nil h
poll_run-Balanced from p all (wrote d ∷ ss) h = rw (← append_assoc all d (written ss)) (
    poll_run-Balanced from (poll_step p (wrote d)) (all ++ d) ss (record {
      held = append-Holds d h.held;
      inside = omega (arith, h.inside, length-append all d);
      balance = h.balance;
    }))
poll_run-Balanced from p all (polled n ∷ ss) h =
    poll_run-Balanced from (poll_step p (polled n)) all ss (record {
      held = h.held;
      inside = omega (arith, (read_from-Holds p.cursor n h.held).3);
      balance = omega (
        arith,
        h.balance,
        read_from_gap p.cursor n h.held h.inside,
        (read_from-Holds p.cursor n h.held).2,
      );
    })

-- A reader that starts at a cursor inside the stream and goes on from each `next_cursor`, with
-- any writes between its reads, never skips a byte unannounced: what it was given and what it was
-- told is gone add up to the distance that its cursor has moved, and it stays inside the stream.
pub poll_run_balance :
    (b : RingBuffer) (all : List ℕ) (from : ℕ) (ss : List PollStep)
    → Holds b all
    → from ≤ length all
    → let p = poll_run (record { buffer = b; cursor = from; delivered = 0; dropped = 0 }) ss in
      (from + p.delivered + p.dropped ≡ p.cursor) × (p.cursor ≤ length (all ++ written ss))
poll_run_balance b all from ss h le = (run.balance, run.inside)
  where
    start : Poller
    start = record { buffer = b; cursor = from; delivered = 0; dropped = 0 }

    run : Balanced from (poll_run start ss) (all ++ written ss)
    run =
        poll_run-Balanced from start all ss
          (record { held = h; inside = le; balance = omega arith })
