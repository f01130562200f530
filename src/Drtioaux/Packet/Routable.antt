-- ===== src/Drtioaux/Packet/Routable.antt =====
-- src/libboard_artiq/src/drtioaux_proto.rs: which packets are routed, and which are answered.
use madmax_artiq_zynq.Base.{ℕ, Bool, true, false, Option, none, some}
use madmax_artiq_zynq.Drtioaux.Packet.{
  Packet, core_mgmt_drop_link_ack, dma_add_trace_reply, dma_add_trace_request, dma_playback_reply,
  dma_playback_request, dma_playback_status, dma_remove_trace_reply, dma_remove_trace_request,
  injection_request, subkernel_exception, subkernel_exception_request, subkernel_finished,
  subkernel_load_run_reply, subkernel_load_run_request, subkernel_message, subkernel_message_ack,
}

-- Only for packets that could be routed again, not only forwarded.
unfoldable pub routable_destination : Packet → Option ℕ
routable_destination (dma_add_trace_request _ destination _ _ _ _) = some destination
routable_destination (dma_add_trace_reply _ destination _ _) = some destination
routable_destination (dma_remove_trace_request _ destination _) = some destination
routable_destination (dma_remove_trace_reply destination _) = some destination
routable_destination (dma_playback_request _ destination _ _) = some destination
routable_destination (dma_playback_reply destination _) = some destination
routable_destination (subkernel_load_run_request _ destination _ _ _) = some destination
routable_destination (subkernel_load_run_reply destination _) = some destination
routable_destination (subkernel_message _ destination _ _ _ _) = some destination
routable_destination (subkernel_message_ack destination) = some destination
routable_destination (subkernel_exception_request _ destination) = some destination
routable_destination (subkernel_exception destination _ _ _) = some destination
routable_destination (dma_playback_status _ destination _ _ _ _) = some destination
routable_destination (subkernel_finished destination _ _ _) = some destination
routable_destination _ = none

-- Replies and acknowledgements end a conversation.
unfoldable pub expects_response : Packet → Bool
expects_response (dma_add_trace_reply _ _ _ _) = false
expects_response (dma_remove_trace_reply _ _) = false
expects_response (dma_playback_reply _ _) = false
expects_response (subkernel_load_run_reply _ _) = false
expects_response (subkernel_message_ack _) = false
expects_response (dma_playback_status _ _ _ _ _ _) = false
expects_response (subkernel_finished _ _ _ _) = false
expects_response (core_mgmt_drop_link_ack _) = false
expects_response (injection_request _ _ _ _) = false
expects_response _ = true
