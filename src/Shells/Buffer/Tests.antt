-- ===== src/Shells/Buffer/Tests.antt =====
-- Runs of the ring buffer, and its theorems at concrete inputs.
use environments_api.Common.{
  ℕ, refl, ◌≡◌, some, none, List, [], ◌∷◌, arith, true, ◌+◌, ◌-◌, ◌≤◌, length,
}
use mathlib.Core.List.{flatten}
use environments_api.Common.Int.{pos, negsuc}
use environments_api.Shells.Buffer.{
  RingBuffer, OutputChunk, new, append, end_of, read, read_span, read_from,
}
use environments_api.Shells.Buffer.History.{
  Holds, append_all, append_all_keeps_tail, read_from-Holds, read_from_gap,
}
use environments_api.Shells.Buffer.Spans.{
  read_span_accounts, poll_run_balance, wrote, polled, poll_run,
}

abbrev empty4 : RingBuffer
empty4 = record { capacity = 4; bytes = []; start = 0 }

abbrev kept : RingBuffer
kept = record { capacity = 4; bytes = 3 ∷ 4 ∷ 5 ∷ 6 ∷ []; start = 2 }

abbrev stream : List ℕ
stream = 1 ∷ 2 ∷ 3 ∷ 4 ∷ 5 ∷ 6 ∷ []

kept-Holds : Holds kept stream
kept-Holds = record { positive = omega arith; start = refl; bytes = refl }

new_refuses : new (pos 0) ≡ none
unfolding new
new_refuses = refl

append_evicts : append (append empty4 (1 ∷ 2 ∷ 3 ∷ [])) (4 ∷ 5 ∷ 6 ∷ []) ≡ kept
unfolding append
append_evicts = refl

read_behind :
    read kept (pos 0) (pos 2)
    ≡ some (record {
      bytes = 3 ∷ 4 ∷ [];
      cursor = 2;
      next_cursor = 4;
      dropped_bytes = 2;
      end = 6;
      truncated_bytes = pos 0;
    })
unfolding read
read_behind = refl

read_refuses : read kept (negsuc 0) (pos 2) ≡ none
unfolding read
read_refuses = refl

append_all_keeps_tail_example :
    let r = append_all empty4 ((1 ∷ 2 ∷ 3 ∷ []) ∷ (4 ∷ 5 ∷ 6 ∷ []) ∷ []) in
    (r.bytes ≡ 3 ∷ 4 ∷ 5 ∷ 6 ∷ []) × (r.start ≡ 2) × (end_of r ≡ 6)
unfolding new flatten end_of append_all append
append_all_keeps_tail_example =
    append_all_keeps_tail 4 ((1 ∷ 2 ∷ 3 ∷ []) ∷ (4 ∷ 5 ∷ 6 ∷ []) ∷ []) refl

read_from-Holds_example :
    let c = read_from kept 3 2 in
    (c.bytes ≡ 4 ∷ 5 ∷ []) × (c.end ≡ 6) × (c.next_cursor ≡ 5) × (c.next_cursor ≤ 6)
unfolding read_from
read_from-Holds_example = read_from-Holds 3 2 kept-Holds

read_from_gap_example :
    let c = read_from kept 1 2 in (1 + c.dropped_bytes ≡ c.cursor) × (c.dropped_bytes ≡ 2 - 1)
read_from_gap_example = read_from_gap 1 2 kept-Holds (omega arith)

read_span_accounts_example :
    (c : OutputChunk) × (t : ℕ) × (read_span kept (pos 1) (pos 6) (pos 2) true ≡ some c)
    × (c.truncated_bytes ≡ pos t)
    × (6 - 1 ≤ c.dropped_bytes + length c.bytes + t)
    × (c.next_cursor ≤ 6 → c.dropped_bytes + length c.bytes + t ≡ 6 - 1)
    × (length c.bytes ≤ 2)
read_span_accounts_example = read_span_accounts 1 6 2 true kept-Holds (omega arith) (omega arith)

poll_run_balance_example :
    let p =
      poll_run
        (record { buffer = kept; cursor = 1; delivered = 0; dropped = 0 })
        (polled 2 ∷ wrote (7 ∷ 8 ∷ []) ∷ polled 9 ∷ []) in
    (1 + p.delivered + p.dropped ≡ p.cursor) × (p.cursor ≤ 8)
poll_run_balance_example =
    poll_run_balance kept stream 1 (polled 2 ∷ wrote (7 ∷ 8 ∷ []) ∷ polled 9 ∷ []) kept-Holds
      (omega arith)
