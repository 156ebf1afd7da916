-- ===== src/Conduit/Runs.antt =====
-- Two small rings and a layout, and the theorems at concrete inputs.
use project_bifrost.Base.{
  ◌≡◌, refl, arith, Option, some, List, [], ◌∷◌, replicate, le_bytes, from_le, true, false,
}
use project_bifrost.Lower.Error.{ok, err}
use project_bifrost.Conduit.Memory.{
  Memory, poke, peek, write_u32_le, write_u64_le, read_u32_le, read_u64_le,
}
use project_bifrost.Conduit.Ring.{
  Entry, Ring, too_large, full, push_entry, push_cmd, push_rsp, drain, poll_rsp, read_entry,
  write_entry, write_pad,
}
use project_bifrost.Conduit.Ring.Held.{Holds, consumed_to}
use project_bifrost.Conduit.Ring.Laid.{Fits}
use project_bifrost.Conduit.Ring.Push.{Appends, push_entry-Appends}
use project_bifrost.Conduit.Ring.Drain.{drain-Holds}
use project_bifrost.Conduit.Ring.Poll.{Finds, poll_rsp-Holds}
use project_bifrost.Conduit.Ring.Room.{is_ok, push_entry-empty, drain-push_entry}
use project_bifrost.Conduit.Ring.Trace.{Turn, push, round, Keeps, run, run-Keeps}
use project_bifrost.Conduit.Layout.{compute_ring_layout}
use project_bifrost.Conduit.Layout.Bounds.{fresh, fresh-Holds, LaysOut, compute_ring_layout-LaysOut}

abbrev zeros : Memory
zeros at = 0

-- A ring of 64 bytes at offset 8.
abbrev ring : Ring
ring = fresh zeros 8 64

abbrev hello : Entry
hello = record { kind = 2; seq = 7; payload = 1 ∷ 2 ∷ 3 ∷ [] }

abbrev world : Entry
world = record { kind = 3; seq = 9; payload = replicate 30 5 }

hello-Fits : Fits hello
hello-Fits = (omega arith, refl, omega arith, omega arith)

world-Fits : Fits world
world-Fits = (omega arith, refl, omega arith, omega arith)

ring-Holds : Holds ring []
ring-Holds = fresh-Holds zeros 8 64 (omega arith) refl

abbrev pushed : Ring
pushed = (push_entry hello ring).1

push_entry-Appends_example : Appends hello [] ring (push_entry hello ring)
push_entry-Appends_example = push_entry-Appends hello [] ring ring-Holds hello-Fits (omega arith)

pushed-Holds : Holds pushed (hello ∷ [])
unfolding push_entry
pushed-Holds = (push_entry-Appends hello [] ring ring-Holds hello-Fits (omega arith)).0

drain-Holds_example : drain 5 pushed ≡ some (hello ∷ [], consumed_to pushed.producer_pos pushed)
unfolding push_entry write_entry
drain-Holds_example = drain-Holds pushed (hello ∷ []) pushed-Holds 5 (omega arith)

poll_rsp-Holds_example :
    (found : Option Entry) × (left : List Entry) × Finds (some 7) (hello ∷ []) found left
    × ((poll_rsp 5 (some 7) pushed).0 ≡ ok found)
    × Holds (poll_rsp 5 (some 7) pushed).1 left
unfolding push_entry write_entry
poll_rsp-Holds_example = poll_rsp-Holds pushed (hello ∷ []) (some 7) 5 pushed-Holds (omega arith)

-- A ring of 96 bytes, where the third entry does not fit before the end and is padded.
abbrev wide : Ring
wide = fresh zeros 8 96

abbrev turns : List Turn
turns = push hello ∷ round ∷ push world ∷ round ∷ push hello ∷ round ∷ round ∷ round ∷ []

run-Keeps_example : Keeps [] (run turns wide)
run-Keeps_example =
    run-Keeps turns wide [] (fresh-Holds zeros 8 96 (omega arith) refl)
      (hello-Fits, (world-Fits, (hello-Fits, tt))) (omega arith)

turns-run : (run turns wide).received ≡ hello ∷ world ∷ hello ∷ []
unfolding run push_entry read_entry write_entry write_pad read_u32_le from_le peek poke write_u64_le
    le_bytes write_u32_le read_u64_le
turns-run = refl

-- A ring that is empty with its cursors at 32 refuses 48 bytes.
abbrev halfway : Ring
halfway = record ring { producer_pos = 32; consumer_pos = 32 }

push_entry-empty_example : is_ok (push_entry world halfway).0 ≡ false
push_entry-empty_example = push_entry-empty world halfway refl

halfway_refuses : (push_rsp 3 9 (replicate 30 5) halfway).0 ≡ err full
unfolding push_rsp push_entry
halfway_refuses = refl

oversize : (push_rsp 3 9 (replicate 60 5) ring).0 ≡ err too_large
unfolding push_rsp push_entry
oversize = refl

tagged : (push_cmd 2 (1 ∷ []) (41, ring)).0 ≡ ok 41
unfolding push_cmd push_entry
tagged = refl

drain-push_entry_example :
    is_ok (push_entry hello (consumed_to pushed.producer_pos pushed)).0 ≡ true
unfolding push_entry write_entry
drain-push_entry_example =
    drain-push_entry pushed (hello ∷ []) (hello ∷ []) (consumed_to pushed.producer_pos pushed) 5
      hello pushed-Holds (omega arith)
      (drain-Holds pushed (hello ∷ []) pushed-Holds 5 (omega arith)) (omega arith)

compute_ring_layout-LaysOut_example : LaysOut 1048576 (compute_ring_layout 1048576)
compute_ring_layout-LaysOut_example = compute_ring_layout-LaysOut 1048576
