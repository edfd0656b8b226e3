-- ===== src/Shells/Buffer.antt =====
-- app/shells/buffer.py: the ring buffer over a growing byte offset, and its reads by cursor.
pub mod History
pub mod Spans
mod Tests
use environments_api.Common.{
  ℕ, ◌+◌, ◌-◌, Bool, Option, none, some, List, [], ◌∷◌, ◌++◌, length, take, drop, ltb,
  if◌then◌else◌,
}
use environments_api.Common.Int.{ℤ, pos, negsuc, ◌+ℤ◌, ◌-ℤ◌, min_ℤ, max_ℤ}

pub record OutputChunk : Type 0 where
  pub bytes : List ℕ
  pub cursor : ℕ
  pub next_cursor : ℕ
  pub dropped_bytes : ℕ
  pub end : ℕ
  pub truncated_bytes : ℤ

pub record RingBuffer : Type 0 where
  pub capacity : ℕ
  pub bytes : List ℕ
  pub start : ℕ

-- `none` is the constructor's `ValueError`.
unfoldable pub new : ℤ → Option RingBuffer
new (pos n) = if ltb 0 n then some (record { capacity = n; bytes = []; start = 0 }) else none
new (negsuc n) = none

unfoldable pub end_of : RingBuffer → ℕ
end_of b = b.start + length b.bytes

-- The eviction under the lock, once the new bytes are in.
evict : RingBuffer → ℕ → RingBuffer
evict b excess =
    if ltb 0 excess then record b { bytes = drop excess b.bytes; start = b.start + excess } else b

unfoldable pub append : RingBuffer → List ℕ → RingBuffer
unfolding evict
append b [] = b
append b (x ∷ d) =
    let filled = record b { bytes = b.bytes ++ (x ∷ d) } in
    evict filled (length filled.bytes - b.capacity)

-- `read` at arguments that passed its guard.
unfoldable pub read_from : RingBuffer → ℕ → ℕ → OutputChunk
unfolding end_of
read_from b cursor max_bytes =
    let stop = end_of b in
    let dropped = if ltb cursor b.start then b.start - cursor else 0 in
    let from = if ltb cursor b.start then b.start else cursor in
    let at = if ltb stop from then stop else from in
    let data' = take max_bytes (drop (at - b.start) b.bytes) in
    record {
      bytes = data';
      cursor = at;
      next_cursor = at + length data';
      dropped_bytes = dropped;
      end = stop;
      truncated_bytes = pos 0;
    }

-- `none` is the `ValueError` for a negative argument.
unfoldable pub read : RingBuffer → ℤ → ℤ → Option OutputChunk
unfolding read_from
read b (pos cursor) (pos max_bytes) = some (read_from b cursor max_bytes)
read b (pos cursor) (negsuc n) = none
read b (negsuc n) max_bytes = none

-- `replace(chunk, truncated_bytes=...)`
recount : ℤ → ℤ → ℤ → Option OutputChunk → Option OutputChunk
recount cursor start end none = none
recount cursor start end (some chunk) = some (record chunk {
  truncated_bytes = (cursor -ℤ start) +ℤ max_ℤ (pos 0) (end -ℤ pos chunk.next_cursor);
})

unfoldable pub read_span : RingBuffer → ℤ → ℤ → ℤ → Bool → Option OutputChunk
unfolding read recount
read_span b start end max_bytes tail =
    let length' = max_ℤ (pos 0) (min_ℤ (end -ℤ start) max_bytes) in
    let cursor = if tail then end -ℤ length' else start in
    recount cursor start end (read b cursor length')
