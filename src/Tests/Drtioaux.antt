-- ===== src/Tests/Drtioaux.antt =====
-- The auxiliary channel at concrete inputs.
use madmax_artiq_zynq.Base.{
  ℕ, ◌+◌, ◌%◌, ◌^◌, ◌<◌, ◌≤◌, ◌≡◌, ◌≢◌, refl, some, List, [], ◌∷◌, ◌++◌, replicate, length, arith,
  length-replicate,
}
use madmax_artiq_zynq.Outcome.{ok, err, panic}
use madmax_artiq_zynq.Drtioaux.Packet.{Packet, monitor_request, dma_add_trace_request}
use madmax_artiq_zynq.Drtioaux.Payload.{first}
use madmax_artiq_zynq.Drtioaux.Valid.{IsValid, on_wire}
use madmax_artiq_zynq.Drtioaux.Read.{read_from}
use madmax_artiq_zynq.Drtioaux.Write.{write_to}
use madmax_artiq_zynq.Drtioaux.RoundTrip.{read_from-write_to}
use madmax_artiq_zynq.Drtioaux.Link.{
  Link, send, recv, padding, aux_rx_present_write, corrupted_packet,
}
use madmax_artiq_zynq.Drtioaux.Link.Frame.{padded, sealed}
use madmax_artiq_zynq.Drtioaux.Link.Delivery.{Sent, Arrived, send_total, recv-send, recv-forward}
use madmax_artiq_zynq.Drtioaux.Link.Faults.{
  WithMessage, trace_header, recv_oversized, recv_corrupted,
}
use madmax_artiq_zynq.Io.Proto.{◌>>◌, write_all, write_u8, write_u16}
use madmax_artiq_zynq.Tests.LittleEndian.{little_endian}

abbrev monitor : Packet
monitor = monitor_request 3 0x102 7

-- A trace of three bytes in the array of full size.
abbrev trace : Packet
trace = dma_add_trace_request 0 2 0x1000 first 3 (9 ∷ 8 ∷ 7 ∷ replicate 1007 0)

trace-IsValid : IsValid trace
trace-IsValid =
    (omega arith, omega arith, (omega (arith, length-replicate {A = ℕ} 1007 0), omega arith))

abbrev sum32 : List ℕ → ℕ
sum32 [] = 0
sum32 (b ∷ bs) = (b + sum32 bs) % 2 ^ 32

sum32_bound : (xs : List ℕ) → sum32 xs < 2 ^ 32
sum32_bound [] = omega arith
sum32_bound (b ∷ bs) = omega arith

abbrev idle : Link
idle = record { aux_rx_present = 0; aux_rx_error = 0; rx_buffer = []; tx_buffer = []; writes = [] }

written : write_to monitor ≡ ok (0x40 ∷ 3 ∷ 2 ∷ 1 ∷ 7 ∷ [])
unfolding write_to write_u8 write_u16 write_all ◌>>◌
written = refl

read_from-write_to_example :
    (bytes : List ℕ) × (write_to trace ≡ ok bytes)
    × (length bytes ≤ 1020)
    × (read_from (bytes ++ 5 ∷ []) ≡ ok (on_wire trace, 5 ∷ []))
read_from-write_to_example = read_from-write_to trace (5 ∷ []) trace-IsValid

send_total_example :
    (bytes : List ℕ) × (write_to trace ≡ ok bytes)
    × (send sum32 trace idle ≡ ok (Sent sum32 bytes idle))
send_total_example = send_total sum32 trace idle trace-IsValid

recv-send_example :
    (sent : Link) × (send sum32 trace idle ≡ ok sent)
    × (recv sum32 (Arrived sum32 sent idle) ≡ (
      ok (some (on_wire trace)),
      record (Arrived sum32 sent idle) { writes = aux_rx_present_write 1 ∷ [] },
    ))
recv-send_example = recv-send sum32 trace idle idle sum32_bound trace-IsValid

recv-forward_example :
    (sent relayed : Link) × (send sum32 trace idle ≡ ok sent)
    × ((recv sum32 (Arrived sum32 sent idle)).0 ≡ ok (some (on_wire trace)))
    × (send sum32 (on_wire trace) (recv sum32 (Arrived sum32 sent idle)).1 ≡ ok relayed)
    × ((recv sum32 (Arrived sum32 relayed idle)).0 ≡ ok (some (on_wire trace)))
recv-forward_example = recv-forward sum32 trace idle idle idle sum32_bound trace-IsValid

recv_oversized_example :
    (recv sum32 (WithMessage idle (trace_header sum32 0 2 1 0 1011 []))).0 ≡ panic
recv_oversized_example =
    recv_oversized sum32 idle 0 2 1 0 1011 [] (omega arith) (omega arith) (omega arith)

monitor_sum : 1 ≢ sum32 (padded (0x40 ∷ 3 ∷ 2 ∷ 1 ∷ 7 ∷ []))
unfolding padded padding replicate
monitor_sum = omega arith

recv_corrupted_example :
    (recv sum32 (WithMessage idle (sealed 1 (0x40 ∷ 3 ∷ 2 ∷ 1 ∷ 7 ∷ []) ++ []))).0
    ≡ err corrupted_packet
recv_corrupted_example =
    recv_corrupted sum32 idle monitor (0x40 ∷ 3 ∷ 2 ∷ 1 ∷ 7 ∷ []) 1 [] (omega arith) written
      (omega arith) monitor_sum
