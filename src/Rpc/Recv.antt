-- ===== src/Rpc/Recv.antt =====
-- src/libksupport/src/rpc.rs: recv_value, recv_elements and recv_return, which build a value in memory
-- from the bytes of a reader. The stores are a log, the newest first: what the code reads back (the
-- pointer and the slice that it has just stored) is passed on. The byte order is the native one, so the
-- bytes of an integer in memory are the ones that were read.
pub mod Lands
pub mod Elements
pub mod Fields
pub mod Receivable
pub mod Lays
use madmax_artiq_zynq.Base.{ℕ, zero, suc, ◌+◌, ◌*◌, ◌%◌, ◌^◌, List, [], ◌∷◌, ◌++◌, length}
use madmax_artiq_zynq.Outcome.{Outcome, ok, err, panic, map_err}
use madmax_artiq_zynq.Outcome
use madmax_artiq_zynq.Io.Cursor.{IoError}
use madmax_artiq_zynq.Io.Proto.{ByteOrder, Reader, read_exact, read_u8, read_u32, read_u64}
use madmax_artiq_zynq.Rpc.Tag.{Tag, Result, expect, next, OutOfFuel}
use madmax_artiq_zynq.Rpc.Tag
use madmax_artiq_zynq.Rpc.Layout.{round_up, alignment, size, parts}
use mathlib.Core.Option
use mathlib.Core.Option.{Option}

-- A store of bytes at an address.
abbrev pub Store : Type 0
Store = ℕ × List ℕ

-- H is the state of the caller's allocator.
pub record Machine (H : Type 0) : Type 0 where
  pub reader : List ℕ
  pub heap : H
  pub stores : List Store

-- An error of the reader comes with the machine as it is then.
pub data RecvError (H : Type 0) : Type 0 where
  io : IoError → Machine H → RecvError H
  out_of_fuel : RecvError H

abbrev pub Recv : Type 0 → Type 0 → Type 0
Recv H A = Machine H → Outcome (RecvError H) (A × Machine H)

infixl 5 ◌>>=◌
abbrev pub ◌>>=◌ : {H A B : Type 0} → Recv H A → (A → Recv H B) → Recv H B
◌>>=◌ r k m = Outcome.◌>>=◌ (r m) (λ p. k p.0 p.1)

abbrev pub pure : {H A : Type 0} → A → Recv H A
pure a m = ok (a, m)

abbrev pub lift : {H A : Type 0} → Result A → Recv H A
lift r m = Outcome.◌>>=◌ (map_err (λ _. out_of_fuel) r) (λ a. ok (a, m))

-- A read of the reader, with `?`.
abbrev pub reading : {H A : Type 0} → Reader A → Recv H A
reading r m =
    Outcome.◌>>=◌ (map_err (λ e. io e m) (r m.reader)) (λ p. ok (p.0, record m { reader = p.1 }))

abbrev pub store : {H : Type 0} → ℕ → List ℕ → Recv H (Unit {0})
store address bytes m = ok (tt, record m { stores = (address, bytes) ∷ m.stores })

abbrev pub offset : (ptr bytes : ℕ) → ℕ
offset ptr bytes = (ptr + bytes) % 2 ^ 32

-- consume_value!: the place of the value, and the data pointer after it.
abbrev pub consume_value :
    {H : Type 0} → (width align data_ptr : ℕ) → (ℕ → Recv H (Unit {0})) → Recv H ℕ
consume_value width align data_ptr map = do
  ptr ← lift (round_up data_ptr align)
  _ ← map ptr
  pure (offset ptr width)

module _ {H : Type 0} (recv : Tag → ℕ → Recv H ℕ) where
  -- The loop over a tuple's elements.
  unfoldable pub recv_parts : (arity : ℕ) → List ℕ → ℕ → Recv H ℕ
  recv_parts zero it data_ptr = pure data_ptr
  recv_parts (suc arity) it data_ptr = do
    item ← lift (next it)
    p ← lift (expect item)
    data_ptr' ← recv p.0 data_ptr
    recv_parts arity p.1 data_ptr'

  unfoldable pub recv_times : Tag → (times : ℕ) → ℕ → Recv H ℕ
  recv_times tag zero data_ptr = pure data_ptr
  recv_times tag (suc times) data_ptr = do
    data_ptr' ← recv tag data_ptr
    recv_times tag times data_ptr'

  -- Elements of a fixed width are read at once.
  abbrev pub recv_block : (storage bytes : ℕ) → Recv H (Unit {0})
  recv_block storage count = do dest ← reading (read_exact (count % 2 ^ 32)); store storage dest

  unfoldable pub recv_elements : Tag → (length storage : ℕ) → Recv H (Unit {0})
  unfolding recv_times
  recv_elements Tag.bool length storage = recv_block storage length
  recv_elements Tag.int32 length storage = recv_block storage (length * 4)
  recv_elements Tag.int64 length storage = recv_block storage (length * 8)
  recv_elements Tag.float64 length storage = recv_block storage (length * 8)
  recv_elements elt_tag length storage = do _ ← recv_times elt_tag length storage; pure tt

module _ ⦃e : ByteOrder⦄ {H : Type 0} (alloc : H → ℕ → Outcome ⊥ (ℕ × H)) where
  abbrev pub allocate : ℕ → Recv H ℕ
  allocate bytes m =
      Outcome.◌>>=◌ (map_err (λ e. elim e [ ]) (alloc m.heap bytes))
        (λ p. ok (p.0, record m { heap = p.1 }))

  -- CMutSlice: the address and the length.
  abbrev pub recv_slice : ℕ → Recv H (Unit {0})
  recv_slice ptr = do
    length ← reading read_u32
    block ← allocate length
    _ ← store ptr (e.of_u32 block ++ e.of_u32 length)
    bytes ← reading (read_exact length)
    store block bytes

  -- The lengths of an array, each stored: their product, and the data pointer after them.
  unfoldable pub recv_lengths : (num_dims : ℕ) → (total_len data_ptr : ℕ) → Recv H (ℕ × ℕ)
  recv_lengths zero total_len data_ptr = pure (total_len, data_ptr)
  recv_lengths (suc num_dims) total_len data_ptr = do
    len ← reading read_u32
    data_ptr' ← consume_value 4 4 data_ptr (λ ptr. store ptr (e.of_u32 len))
    recv_lengths num_dims ((total_len * len) % 2 ^ 32) data_ptr'

  abbrev pub first_tag : List ℕ → Recv H Tag
  first_tag it = do item ← lift (next it); p ← lift (expect item); pure p.0

  -- The structure List: the address of the elements and their number.
  unfoldable pub recv_list : (Tag → ℕ → Recv H ℕ) → List ℕ → ℕ → Recv H (Unit {0})
  unfolding recv_elements
  recv_list recv it ptr_to_list = do
    tag ← first_tag it
    length ← reading read_u32
    align ← lift (alignment tag)
    storage_offset ← lift (round_up 8 align)
    width ← lift (size tag)
    allocation ← allocate ((storage_offset + (width * length) % 2 ^ 32) % 2 ^ 32)
    _ ← store ptr_to_list (e.of_u32 allocation)
    _ ← store (offset allocation 4) (e.of_u32 length)
    _ ← store allocation (e.of_u32 (offset allocation storage_offset))
    recv_elements recv tag length (offset allocation storage_offset)

  -- The lengths, then the elements, whose address goes where the array starts.
  unfoldable pub recv_array : (Tag → ℕ → Recv H ℕ) → List ℕ → (num_dims data_ptr : ℕ) → Recv H ℕ
  unfolding recv_lengths recv_elements
  recv_array recv it num_dims data_ptr = do
    buffer ← lift (round_up data_ptr 4)
    p ← recv_lengths num_dims 1 (offset buffer 4)
    elt_tag ← first_tag it
    width ← lift (size elt_tag)
    block ← allocate ((width * p.0) % 2 ^ 32)
    _ ← store buffer (e.of_u32 block)
    _ ← recv_elements recv elt_tag p.0 block
    pure p.1

  unfoldable pub recv_value_on : (fuel : ℕ) → Tag → (data_ptr : ℕ) → Recv H ℕ
  unfolding recv_parts recv_list recv_array
  recv_value_on zero tag data_ptr = lift (err OutOfFuel.out_of_fuel)
  recv_value_on (suc fuel) Tag.none data_ptr = pure data_ptr
  recv_value_on (suc fuel) Tag.bool data_ptr =
      consume_value 1 1 data_ptr (λ ptr. do v ← reading read_u8; store ptr (v ∷ []))
  recv_value_on (suc fuel) Tag.int32 data_ptr =
      consume_value 4 4 data_ptr (λ ptr. do v ← reading read_u32; store ptr (e.of_u32 v))
  recv_value_on (suc fuel) Tag.int64 data_ptr =
      consume_value 8 8 data_ptr (λ ptr. do v ← reading read_u64; store ptr (e.of_u64 v))
  recv_value_on (suc fuel) Tag.float64 data_ptr =
      consume_value 8 8 data_ptr (λ ptr. do v ← reading read_u64; store ptr (e.of_u64 v))
  recv_value_on (suc fuel) Tag.string data_ptr = consume_value 8 4 data_ptr recv_slice
  recv_value_on (suc fuel) Tag.bytes data_ptr = consume_value 8 4 data_ptr recv_slice
  recv_value_on (suc fuel) Tag.byte_array data_ptr = consume_value 8 4 data_ptr recv_slice
  recv_value_on (suc fuel) (Tag.tuple it arity) data_ptr = do
    align ← lift (alignment (Tag.tuple it arity))
    start ← lift (round_up data_ptr align)
    stop ← recv_parts (recv_value_on fuel) arity it start
    lift (round_up stop align)
  recv_value_on (suc fuel) (Tag.list it) data_ptr =
      consume_value 4 4 data_ptr (recv_list (recv_value_on fuel) it)
  recv_value_on (suc fuel) (Tag.array it num_dims) data_ptr =
      recv_array (recv_value_on fuel) it num_dims data_ptr
  recv_value_on (suc fuel) (Tag.range it) data_ptr = do
    align ← lift (alignment (Tag.range it))
    start ← lift (round_up data_ptr align)
    tag ← first_tag it
    recv_times (recv_value_on fuel) tag 3 start
  recv_value_on (suc fuel) (Tag.keyword it) data_ptr = lift panic
  recv_value_on (suc fuel) Tag.object data_ptr = lift panic

  -- The nesting is no deeper than the bytes of the parts are long.
  unfoldable pub recv_value : Tag → (data_ptr : ℕ) → Recv H ℕ
  unfolding recv_value_on
  recv_value tag data_ptr = recv_value_on (suc (length (parts tag))) tag data_ptr

  -- The bytes of the tags after the first.
  unfoldable pub recv_return : (tag_bytes : List ℕ) → (data_ptr : ℕ) → Recv H (List ℕ)
  unfolding recv_value
  recv_return tag_bytes data_ptr = do
    item ← lift (next tag_bytes)
    p ← lift (expect item)
    _ ← recv_value p.0 data_ptr
    pure p.1
