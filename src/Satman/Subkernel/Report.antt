-- ===== src/Satman/Subkernel/Report.antt =====
-- src/satman/src/subkernel.rs, write_exception: the bytes of a report of exceptions for the host.
-- `valid` is the check of UTF-8, and `filled_in` the replacement of the channel's name, with the number of
-- the channel, in a message.
use madmax_artiq_zynq.Base.{
  ℕ, ◌-◌, ◌%◌, ◌^◌, Bool, Option, none, some, List, [], ◌∷◌, if◌then◌else◌, length,
}
use madmax_artiq_zynq.Outcome.{panic}
use madmax_artiq_zynq.Io.Proto.{
  ByteOrder, Writer, ◌>>◌, write_all, write_u8, write_u32, write_u64, write_bytes,
}
use madmax_artiq_zynq.Satman.Subkernel.{Exception, StackPointerBacktrace, Text, host, bytes}

module _ ⦃e : ByteOrder⦄ (valid : List ℕ → Bool) (filled_in : ℕ → List ℕ → List ℕ) where
  unfoldable pub write_text : (channel : ℕ) → Text → Writer
  unfolding write_bytes
  write_text channel (host ptr) = do write_u32 (2 ^ 32 - 1); write_u32 (ptr % 2 ^ 32)
  write_text channel (bytes text) =
      if valid text then write_bytes (filled_in channel text) else panic

  unfoldable pub write_one : Option Exception → Writer
  unfolding write_text
  write_one none = panic
  write_one (some exception) = do
    write_u32 exception.id
    write_text exception.param.0 exception.message
    write_u64 exception.param.0
    write_u64 exception.param.1
    write_u64 exception.param.2
    write_bytes exception.file
    write_u32 exception.line
    write_u32 exception.column
    write_bytes exception.function

  unfoldable pub write_exceptions : List (Option Exception) → Writer
  unfolding write_one
  write_exceptions [] = write_all []
  write_exceptions (exception ∷ exceptions) = do write_one exception; write_exceptions exceptions

  unfoldable pub write_stack_pointers : List StackPointerBacktrace → Writer
  write_stack_pointers [] = write_all []
  write_stack_pointers (sp ∷ stack_pointers) = do
    write_u32 sp.stack_pointer
    write_u32 sp.initial_backtrace_size
    write_u32 sp.current_backtrace_size
    write_stack_pointers stack_pointers

  unfoldable pub write_backtrace : List (ℕ × ℕ) → Writer
  write_backtrace [] = write_all []
  write_backtrace ((addr, sp) ∷ backtrace) = do
    write_u32 addr
    write_u32 sp
    write_backtrace backtrace

  unfoldable pub write_exception :
      List (Option Exception) → List StackPointerBacktrace → List (ℕ × ℕ) → Writer
  unfolding write_exceptions write_stack_pointers write_backtrace
  write_exception exceptions stack_pointers backtrace = do
    write_bytes (90 ∷ 90 ∷ 90 ∷ 90 ∷ 9 ∷ [])
    write_u32 (length exceptions % 2 ^ 32)
    write_exceptions exceptions
    write_stack_pointers stack_pointers
    write_u32 (length backtrace % 2 ^ 32)
    write_backtrace backtrace
    write_u8 0
