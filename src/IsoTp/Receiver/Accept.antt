-- ===== src/IsoTp/Receiver/Accept.antt =====
-- What a Consecutive Frame makes of a reception: it goes on, or it delivers the message.
use yes_you_can.Prelude.{
  ℕ, ◌+◌, ◌≤◌, ◌<◌, ◌≡◌, refl, ap, ◌∙◌, true, false, ◌&&◌, Option, none, some, [], ◌∷◌, arith, ltb,
  leb, if_cases, length, take,
}
use yes_you_can.Bytes.{Bytes, concat_bytes}
use yes_you_can.IsoTp.Options.{IsoTpOptions}
use yes_you_can.IsoTp.Connection.{Connection, RxState, Step}
use yes_you_can.IsoTp.Receiver.{accept_chunk, send_flow_control, deliver}
use yes_you_can.IsoTp.Receiver.Reassembly.{deliveries, Receiving}

-- `deliver` hands the payload to the request in the slot, or else to the listeners.
pub deliver_lem :
    (payload : Bytes) (c : Connection)
    → (deliveries (deliver payload c).1 ≡ (c.pending, payload) ∷ [])
      × ((deliver payload c).0.pending ≡ none)
      × ((deliver payload c).0.rx_state ≡ c.rx_state)
unfolding deliver deliveries
deliver_lem payload c = (ground arith, ground arith, ground arith)

pub accept_last :
    (o : IsoTpOptions) (now : ℕ) (state : RxState) (c : Connection)
    → state.expected_length ≤ state.received
    → let r = accept_chunk o now state c in
      (deliveries r.1 ≡ (c.pending, take state.expected_length (concat_bytes state.chunks)) ∷ [])
      × (r.0.pending ≡ none)
      × (r.0.rx_state ≡ none)
unfolding accept_chunk
accept_last o now state c h =
    let done : leb state.expected_length state.received ≡ true = ground arith in
    rw done (deliver_lem _ _)

-- The reception is the same but for the count of the block.
abbrev pub SameReception : RxState → Option RxState → Type 0
SameReception s none = ⊥
SameReception s (some t) =
    (t.expected_length ≡ s.expected_length)
    × (t.chunks ≡ s.chunks)
    × (t.received ≡ s.received)
    × (t.next_sequence ≡ s.next_sequence)

pub accept_more :
    (o : IsoTpOptions) (now : ℕ) (state : RxState) (c : Connection)
    → state.received < state.expected_length
    → let r = accept_chunk o now state c in
      (deliveries r.1 ≡ []) × (r.0.pending ≡ c.pending) × SameReception state r.0.rx_state
unfolding accept_chunk deliveries send_flow_control
accept_more o now state c h =
    let open' : leb state.expected_length state.received ≡ false = ground arith in
    rw open' (
      if_cases
        (λ (r : Step).
          (deliveries r.1 ≡ []) × (r.0.pending ≡ c.pending) × SameReception state r.0.rx_state)
        (ltb 0 o.timing.block_size && leb o.timing.block_size state.block_count) _ _
        (refl, refl, (refl, refl, refl, refl)) (refl, refl, (refl, refl, refl, refl)))

pub Receiving-SameReception :
    (s : RxState) (rx : Option RxState) (c : Connection) (got rest : Bytes) (sequence : ℕ)
    {owner : Option ℕ}
    → SameReception s rx
    → c.rx_state ≡ rx
    → c.pending ≡ owner
    → s.expected_length ≡ length got + length rest
    → concat_bytes s.chunks ≡ got
    → s.received ≡ length got
    → s.next_sequence ≡ sequence
    → Receiving c got rest sequence owner
Receiving-SameReception s none c got rest sequence h active owned expects holds counted numbered =
    absurd h
Receiving-SameReception s (some t) c got rest sequence h active owned expects holds counted
      numbered =
    record {
      state = t;
      active = active;
      expects = h.0 ∙ expects;
      holds = ap concat_bytes h.1 ∙ holds;
      counted = h.2 ∙ counted;
      numbered = h.3 ∙ numbered;
      owned = owned;
    }
