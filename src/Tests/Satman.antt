-- ===== src/Tests/Satman.antt =====
-- The slices and messages of the satellite manager at concrete inputs.
use madmax_artiq_zynq.Base.{
  ℕ, ◌+◌, ◌≡◌, refl, true, false, List, [], ◌∷◌, ◌==◌, drop, length, replicate, inl, inr, take,
  length-replicate, arith,
}
use madmax_artiq_zynq.Outcome.{ok}
use madmax_artiq_zynq.Drtioaux.Payload.{master_payload_max_size, from_status}
use madmax_artiq_zynq.Satman.Sliceable.{Sliceable}
use madmax_artiq_zynq.Satman.Sliceable.Slices.{Slice, Splits, slices, slices-Splits}
use madmax_artiq_zynq.Satman.Messages.{MessageManager, load_message}
use madmax_artiq_zynq.Satman.Messages
use madmax_artiq_zynq.Satman.Messages.Incoming.{handle_all, received, handle_all-Splits}
use madmax_artiq_zynq.Satman.Messages.Outgoing.{send_all, finished, send_all-handle_all}
use madmax_artiq_zynq.Satman.Sliceable
use madmax_artiq_zynq.Satman.Library.{Kernels}
use madmax_artiq_zynq.Satman.Library.Received.{Holds, receive_all, receive_all-slices}

abbrev five : Sliceable
five = record { it = 0; content = 1 ∷ 2 ∷ 3 ∷ 4 ∷ 5 ∷ []; destination = 2 }

slices-Splits_example : Splits 2 (five.it == 0) (drop five.it five.content) (slices 2 6 five)
slices-Splits_example =
    slices-Splits 2 6 five (omega arith) (omega arith) (omega arith) (omega arith)

-- A message in two slices, of one byte and two.
abbrev pub two_slices : List Slice
two_slices =
    (record { destination = 2; len = 1; status = from_status true false }, 7 ∷ replicate 1009 0)
    ∷ (
      record { destination = 2; len = 2; status = from_status false true },
      8 ∷ 9 ∷ replicate 1008 0,
    )
    ∷ []

pub two_slices-Splits : Splits master_payload_max_size true (7 ∷ 8 ∷ 9 ∷ []) two_slices
unfolding take
two_slices-Splits = (
  omega arith,
  omega (arith, length-replicate {A = ℕ} 1009 0),
  inr (
    8 ∷ 9 ∷ [],
    refl,
    omega arith,
    refl,
    (omega arith, omega (arith, length-replicate {A = ℕ} 1008 0), inl (refl, refl, refl)),
  ),
)

handle_all-Splits_example :
    handle_all 4 two_slices Messages.new
    ≡ ok (received (record { count = 7; id = 4; content = 8 ∷ 9 ∷ [] }) Messages.new)
handle_all-Splits_example =
    handle_all-Splits 4 7 (8 ∷ 9 ∷ []) two_slices Messages.new two_slices-Splits

send_all-handle_all_example :
    (sent : List Slice) × (send_all
        (length {A = ℕ} (8 ∷ 9 ∷ []) + 2)
        (load_message 2 (7 ∷ 8 ∷ 9 ∷ []) Messages.new)
      ≡ (sent, finished Messages.new))
    × (handle_all 4 sent Messages.new
        ≡ ok (received (record { count = 7; id = 4; content = 8 ∷ 9 ∷ [] }) Messages.new))
send_all-handle_all_example = send_all-handle_all 2 4 7 (8 ∷ 9 ∷ []) Messages.new Messages.new

receive_all-slices_example :
    (kernels' : Kernels) × (receive_all 5
        (slices master_payload_max_size
          (length {A = ℕ} (1 ∷ 2 ∷ []) + 1)
          (Sliceable.new 2 (1 ∷ 2 ∷ [])))
        []
      ≡ ok kernels')
    × Holds 5 (1 ∷ 2 ∷ []) [] kernels'
receive_all-slices_example = receive_all-slices 5 2 (1 ∷ 2 ∷ []) []
