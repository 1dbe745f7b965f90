-- ===== src/Tests/Slots.antt =====
-- The response slot of a connection.
use yes_you_can.Prelude.{ℕ, ◌-◌, ◌≡◌, refl, List, [], ◌∷◌, ◌++◌, length, drop, replicate}
use yes_you_can.Can.{CanFrame}
use yes_you_can.IsoTp.Connection.{initial_connection, witness_limit}
use yes_you_can.IsoTp.Slot.{
  Happening, requests, arrives, response_expires, closes, happen_all, settled, in_slot, issued,
  each_settled_once,
}
use yes_you_can.IsoTp.Options.{frame_payload_capacity}
use yes_you_can.IsoTp.Ring.{entries, ring_holds_last}
use yes_you_can.IsoTp.Receiver.{handle_frames}
use yes_you_can.Tests.Links.{classic, blank}

-- One request is answered, one runs out of time, one is closed.
abbrev three_requests : List Happening
three_requests =
    requests
    ∷ arrives 10 (record blank { payload = 0x02 ∷ 0x50 ∷ 0x03 ∷ [] })
    ∷ requests
    ∷ response_expires 2 5000 1
    ∷ requests
    ∷ closes
    ∷ []

each_settled_once_example :
    settled (happen_all classic three_requests initial_connection).1
      ++ in_slot (happen_all classic three_requests initial_connection).0.pending
    ≡ in_slot initial_connection.pending
      ++ issued initial_connection.pending_sequence three_requests
each_settled_once_example = each_settled_once classic three_requests initial_connection

three_settled : settled (happen_all classic three_requests initial_connection).1 ≡ 1 ∷ 2 ∷ 3 ∷ []
unfolding happen_all settled initial_connection frame_payload_capacity
three_settled = refl

-- 40 frames, which are more than the ring holds.
abbrev forty_frames : List (ℕ × CanFrame)
forty_frames = replicate 40 (10, blank)

ring_holds_last_example :
    (handle_frames classic forty_frames initial_connection).0.witness
    ≡ drop (length (entries 0 forty_frames) - witness_limit) (entries 0 forty_frames)
ring_holds_last_example = ring_holds_last classic forty_frames
