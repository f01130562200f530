-- ===== src/Satman/Subkernel.antt =====
-- src/satman/src/subkernel.rs: the kernels that other destinations run on this satellite. Message is the
-- part of src/libksupport/src/kernel/mod.rs that the two cores exchange here.
pub mod State
pub mod Report
pub mod Channel
pub mod Step
pub mod Pass
pub mod Requests
pub mod Turn
pub mod Keeps
pub mod Sound
pub mod Reachable
pub mod Loads
pub mod Finished
pub mod Retrieved
pub mod Awaits
use madmax_artiq_zynq.Base.{ℕ, Bool, true, false, Option, none, some, List, []}
use madmax_artiq_zynq.Rpc.Recv.{Store}
use madmax_artiq_zynq.Satman.Sliceable.{Sliceable}
use madmax_artiq_zynq.Satman.Messages.{MessageManager}
use madmax_artiq_zynq.Satman.Messages
use madmax_artiq_zynq.Satman.Library.{Kernels}
use madmax_artiq_zynq.Satman.Dma.Manager as DmaManager

-- A message of an exception: a string of the host, by its number, or bytes.
pub data Text : Type 0 where
  host : (ptr : ℕ) → Text
  bytes : List ℕ → Text

pub record Exception : Type 0 where
  pub id : ℕ
  pub file : List ℕ
  pub line : ℕ
  pub column : ℕ
  pub function : List ℕ
  pub message : Text
  pub param : ℕ × ℕ × ℕ

pub record StackPointerBacktrace : Type 0 where
  pub stack_pointer : ℕ
  pub initial_backtrace_size : ℕ
  pub current_backtrace_size : ℕ

pub data SubkernelStatus : Type 0 where
  no_error timeout incorrect_state comm_lost : SubkernelStatus
  exception : List ℕ → SubkernelStatus
  other_error : SubkernelStatus

pub record DmaRecorder : Type 0 where
  pub name : List ℕ
  pub buffer : List ℕ
  pub duration : ℕ
  pub enable_ddma : Bool

-- Signed integers are the numbers of their bits. `other` stands for the messages that neither side
-- looks at here: remote calls, I2C and the camera link.
pub data Message : Type 0 where
  load_request : List ℕ → Message
  load_completed load_failed start_request kernel_finished : Message
  kernel_exception : List (Option Exception) → List StackPointerBacktrace → List (ℕ × ℕ) → Message
  rtio_init_request rtio_init_reply : Message
  rpc_recv_request : (slot : ℕ) → Message
  rpc_recv_reply : (size : ℕ) → Message
  cache_get_request : (key : List ℕ) → Message
  cache_get_reply : List ℕ → Message
  cache_put_request : (key value : List ℕ) → Message
  dma_put_request : DmaRecorder → Message
  dma_erase_request dma_get_request : (name : List ℕ) → Message
  dma_get_reply : Option (ℕ × ℕ × Bool) → Message
  dma_start_remote_request : (id timestamp : ℕ) → Message
  dma_await_remote_request : (id : ℕ) → Message
  dma_await_remote_reply : (timeout : Bool) (error channel timestamp : ℕ) → Message
  up_destinations_request : (destination : ℕ) → Message
  up_destinations_reply : Bool → Message
  subkernel_load_run_request : (id destination : ℕ) (run : Bool) (timestamp : ℕ) → Message
  subkernel_load_run_reply : (succeeded : Bool) → Message
  subkernel_await_finish_request : (id timeout : ℕ) → Message
  subkernel_await_finish_reply : Message
  subkernel_msg_send : (id : ℕ) (destination : Option ℕ) (content : List ℕ) → Message
  subkernel_msg_sent : Message
  subkernel_msg_recv_request : (id timeout : ℕ) (tags : List ℕ) → Message
  subkernel_msg_recv_reply : (count : ℕ) → Message
  subkernel_error : SubkernelStatus → Message
  other : Message

pub data KernelState : Type 0 where
  absent loaded running : KernelState
  msg_await : (max_time : Option ℕ) (id : ℕ) (tags : List ℕ) → KernelState
  msg_sending subkernel_await_load : KernelState
  subkernel_await_finish : (max_time : Option ℕ) (id : ℕ) → KernelState
  dma_uploading : KernelState
  dma_pending_playback : (id timestamp : ℕ) → KernelState
  dma_pending_await : (id timestamp max_time : ℕ) → KernelState
  dma_await : (max_time : ℕ) → KernelState
  subkernel_retrieving_exception : (destination : ℕ) → KernelState

-- The texts of Load and Unexpected are left out.
pub data Error : Type 0 where
  load kernel_not_found unexpected no_message awaiting_message subkernel_io_error drtio_error :
      Error
  kernel_exception : Sliceable → Error
  dma_error : DmaManager.Error → Error

pub record Session : Type 0 where
  pub id : ℕ
  pub kernel_state : KernelState
  pub last_exception : Option Sliceable
  pub external_exception : Option (List ℕ)
  pub messages : MessageManager
  pub source : ℕ
  pub subkernels_finished : List (ℕ × Option ℕ)

pub record SubkernelFinished : Type 0 where
  pub id : ℕ
  pub with_exception : Bool
  pub exception_source : ℕ
  pub source : ℕ

-- The channel to the other core: the messages that have arrived, the oldest first, those that arrive in
-- each of the coming turns of the executor, and those sent, the newest first.
pub record Control : Type 0 where
  pub rx : List Message
  pub turns : List (List Message)
  pub tx : List Message

-- `selected` is the register of the CRI switch, `now` the cursor of the timeline, and `memory` the stores
-- to the kernel's memory, the newest first.
pub record Manager : Type 0 where
  pub kernels : Kernels
  pub session : Session
  pub control : Control
  pub cache : List (List ℕ × List ℕ)
  pub last_finished : Option SubkernelFinished
  pub selected : ℕ
  pub now : ℕ
  pub memory : List Store

unfoldable pub new_session : ℕ → Session
new_session id = record {
  id = id;
  kernel_state = absent;
  last_exception = none;
  external_exception = none;
  messages = Messages.new;
  source = 0;
  subkernels_finished = [];
}

unfoldable pub new : Control → (selected now : ℕ) → Manager
unfolding new_session
new control selected now = record {
  kernels = [];
  session = new_session 0;
  control = control;
  cache = [];
  last_finished = none;
  selected = selected;
  now = now;
  memory = [];
}
