-- ===== src/Satman/Subkernel/Awaits.antt =====
-- src/satman/src/subkernel.rs: waits for the other core, and for a message of another kernel.
use madmax_artiq_zynq.Base.{
  ℕ, zero, suc, ◌≡◌, refl, ap, false, length, Option, none, some, List, [], ◌∷◌, ◌++◌,
}
use madmax_artiq_zynq.Outcome.{ok}
use madmax_artiq_zynq.Io.Proto.{ByteOrder, Writer}
use madmax_artiq_zynq.Drtioaux.RoutingTable.{RoutingTable}
use madmax_artiq_zynq.Satman.Subkernel.{
  Control, Manager, Exception, StackPointerBacktrace, Error, Message, running, msg_await,
}
use madmax_artiq_zynq.Satman.Subkernel.Channel.{recv_w_timeout}
use madmax_artiq_zynq.Satman.Subkernel.Step.{
  Parts, answer, ◌>>=◌, pure, raise, update, ask, try_recv,
}
use madmax_artiq_zynq.TreeMap.{names}
use madmax_artiq_zynq.Satman.Messages.{get_incoming}
use madmax_artiq_zynq.Satman.Subkernel.Requests.{find_finished, swap_remove, deadline, is_late}
use madmax_artiq_zynq.Satman.Subkernel.Turn.{report_finished, message_id, process_kern_requests}
use madmax_artiq_zynq.Satman.Subkernel.Finished.{busy}
use madmax_artiq_zynq.Satman.Subkernel.State.{is_running, remote_subkernel_finished}
use madmax_artiq_zynq.Base.{◌<◌, replicate, arith}
use madmax_artiq_zynq.Satman.Subkernel.Channel.{next_turn}

-- Nothing comes for so many turns, and then a message, before the time is out: it is received, and what
-- came with it is kept.
recv_w_timeout-arrives :
    (quiet polls : ℕ) (message : Message) (rx : List Message) (turns : List (List Message))
    (c : Control)
    → suc quiet < polls
    → recv_w_timeout polls
        (record c { rx = []; turns = replicate quiet [] ++ ((message ∷ rx) ∷ turns) })
      ≡ (some message, record c { rx = rx; turns = turns })
unfolding recv_w_timeout next_turn replicate
recv_w_timeout-arrives quiet zero message rx turns c h = absurd (omega arith)
recv_w_timeout-arrives zero (suc zero) message rx turns c h = absurd (omega arith)
recv_w_timeout-arrives zero (suc (suc polls)) message rx turns c h = refl
recv_w_timeout-arrives (suc quiet) (suc polls) message rx turns c h =
    recv_w_timeout-arrives quiet polls message rx turns c (omega arith)

find_finished-append :
    (id : ℕ) (finished : List (ℕ × Option ℕ)) (source : Option ℕ)
    → find_finished id finished ≡ none
    → find_finished id (finished ++ ((id, source) ∷ [])) ≡ some (length finished, source)
unfolding find_finished
find_finished-append id [] source absent = ground arith
find_finished-append id ((status, exception_source) ∷ finished) source absent =
    ground (arith, find_finished-append id finished source)

swap_remove-append :
    {A : Type 0} (xs : List A) (x : A) → swap_remove (xs ++ (x ∷ [])) (length xs) ≡ xs
unfolding swap_remove
swap_remove-append [] x = refl
swap_remove-append (y ∷ []) x = refl
swap_remove-append (y ∷ z ∷ xs) x = ap (λ rest. y ∷ rest) (swap_remove-append (z ∷ xs) x)

-- The kernel waits for a message, and its request is gone.
abbrev pub waiting_for :
    (max_time : Option ℕ) (id : ℕ) (tags : List ℕ) → List Message → Manager → Manager
waiting_for max_time id tags rx m = record m {
  session = record m.session { kernel_state = msg_await max_time id tags };
  control = record m.control { rx = rx };
  last_finished = none;
}

-- The kernel runs on, with a reply.
abbrev pub let_on : Message → List Message → Manager → Manager
let_on reply rx m = record m {
  session = record m.session { kernel_state = running };
  control = record m.control { rx = rx; tx = reply ∷ m.control.tx };
  last_finished = none;
}

module _ ⦃e : ByteOrder⦄
    (report : List (Option Exception) → List StackPointerBacktrace → List (ℕ × ℕ) → Writer)
    (describe : ℕ → Error → List ℕ) (polls address n_repeaters : ℕ) (table : RoutingTable)
    (rank self_destination : ℕ) where
  -- A kernel runs, no end is waiting to be reported, and it asks for a message under an id (its own, for
  -- -1), of which none has come and no kernel's end is known. In this turn it is made to wait, and is sent
  -- nothing. Then the news comes that the kernel of that id has ended without an exception. In the next
  -- turn, if the time of the request is not out, the waiting kernel is sent the reply to a wait for the end
  -- of a kernel; it is taken to run on, without a message, and the news is forgotten.
  pub await_message-finished :
      (p : Parts) (id timeout now later source : ℕ) (tags : List ℕ) (rx : List Message)
      → get_incoming (message_id p.manager.session.id id) p.manager.session.messages
        ≡ (none, p.manager.session.messages)
      → find_finished (message_id p.manager.session.id id) p.manager.session.subkernels_finished
        ≡ none
      → is_late later (deadline now timeout) ≡ false
      → (process_kern_requests report describe polls now address n_repeaters table rank
            self_destination
            (record p {
              manager = busy (Message.subkernel_msg_recv_request id timeout tags) rx p.manager;
            })
          ≡ ok (
            answer tt,
            record p {
              manager =
                  waiting_for
                    (deadline now timeout)
                    (message_id p.manager.session.id id)
                    tags
                    rx
                    p.manager;
            },
          ))
        × (process_kern_requests report describe polls later address n_repeaters table rank
              self_destination
              (record p {
                manager =
                    remote_subkernel_finished (message_id p.manager.session.id id) false source (
                      waiting_for
                        (deadline now timeout)
                        (message_id p.manager.session.id id)
                        tags
                        rx
                        p.manager);
              })
            ≡ ok (
              answer tt,
              record p { manager = let_on Message.subkernel_await_finish_reply rx p.manager },
            ))
  unfolding process_kern_requests report_finished try_recv ◌>>=◌ pure raise update ask is_running
      remote_subkernel_finished
  await_message-finished p id timeout now later source tags rx none_yet unknown in_time = (
    refl,
    rw
        (
          in_time,
          none_yet,
          find_finished-append (message_id p.manager.session.id id)
              p.manager.session.subkernels_finished none unknown,
          swap_remove-append p.manager.session.subkernels_finished
              ((message_id p.manager.session.id id), none),
        )
        refl,
  )
