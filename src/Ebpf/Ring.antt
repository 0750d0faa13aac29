-- ===== src/Ebpf/Ring.antt =====
-- The loop of `EventCollector::run` in inputs/ebpf.rs over the items of the ring buffer.
use sigmacatch.Event.Payload.{Event}
use sigmacatch.Ebpf.Builder.{EventBuilder, Made, Platform, made, nothing, panicked}
use sigmacatch.Ebpf.Events.{make_event}
use sigmacatch.Ebpf.Proc.{World}
use sigmacatch.Ebpf.Wire.{RingRecord, read_record}
use sigmacatch.Prelude.{List, Option, [], none, some, suc, zero, ℕ, ◌-◌, ◌∷◌}

-- How the loop over some items ends: all are read, the receiver of the events is closed, or the task
-- panics.
pub data Ended : Type 0 where
  drained : EventBuilder → Ended
  closed : Ended
  panic : Ended

-- What is sent, and how many events the receiver takes before it is closed.
abbrev pub left : Made → ℕ → ℕ
left nothing k = k
left panicked k = k
left (made e) k = k - 1

abbrev pub send : Event → ℕ → List Event × Ended → List Event × Ended
send e zero rest = ([], closed)
send e (suc k) (es, end) = (e ∷ es, end)

abbrev pub sending : Made → ℕ → List Event × Ended → List Event × Ended
sending nothing k rest = rest
sending panicked k rest = ([], panic)
sending (made e) k rest = send e k rest

module _ (platform : Platform) where
  -- One item: a record that cannot be read is skipped.
  abbrev pub of_record : World → Option RingRecord → EventBuilder → Made × EventBuilder
  unfolding make_event
  of_record w none b = (nothing, b)
  of_record w (some r) b = make_event platform w r b

  unfoldable pub on_item : World → List ℕ → EventBuilder → Made × EventBuilder
  unfolding make_event read_record
  on_item w bytes b = of_record w (read_record bytes) b

  -- The loop over items, each with what the system answers meanwhile; `k` events are taken.
  unfoldable pub run_ring : List (World × List ℕ) → (k : ℕ) → EventBuilder → List Event × Ended
  unfolding on_item
  run_ring [] k b = ([], drained b)
  run_ring ((w, bytes) ∷ items) k b =
      let (m, b') = on_item w bytes b in sending m k (run_ring items (left m k) b')
