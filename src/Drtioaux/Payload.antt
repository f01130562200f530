-- ===== src/Drtioaux/Payload.antt =====
-- src/libboard_artiq/src/drtioaux_proto.rs: payload sizes, the status byte, and the arrays of fixed size
-- of which a packet carries the first `length` elements.
use madmax_artiq_zynq.Base.{
  ℕ, zero, suc, ◌-◌, ◌/◌, Bool, true, false, List, [], ◌∷◌, ◌++◌, leb, ◌==◌, if◌then◌else◌, length,
  take, replicate,
}
use madmax_artiq_zynq.Outcome.{Outcome, ok, panic}
use madmax_artiq_zynq.Io.Cursor.{IoError}
use madmax_artiq_zynq.Io.Proto.{
  ByteOrder, Reader, Writer, ◌>>=◌, ◌>>◌, pure, lift, read_exact, read_u8, read_u64, write_all,
  write_u8, write_u64,
}

abbrev pub max_packet : ℕ
max_packet = 1024

abbrev pub cxp_payload_max_size : ℕ
cxp_payload_max_size = max_packet - 1 - 2 - 4 - 1

abbrev pub cxp_payload_max_size_u64 : ℕ
cxp_payload_max_size_u64 = cxp_payload_max_size / 8

abbrev pub sat_payload_max_size : ℕ
sat_payload_max_size = max_packet - 4 - 1 - 1 - 2

abbrev pub master_payload_max_size : ℕ
master_payload_max_size = sat_payload_max_size - 1 - 1 - 4

pub data PayloadStatus : Type 0 where
  middle first last first_and_last : PayloadStatus

unfoldable pub from_u8 : ℕ → Outcome IoError PayloadStatus
from_u8 value =
    if value == 0
    then ok middle
    else if value == 1
    then ok first
    else if value == 2
    then ok last
    else if value == 3
    then ok first_and_last
    else panic

-- `status as u8`
unfoldable pub to_u8 : PayloadStatus → ℕ
to_u8 middle = 0
to_u8 first = 1
to_u8 last = 2
to_u8 first_and_last = 3

unfoldable pub is_first : PayloadStatus → Bool
is_first first = true
is_first first_and_last = true
is_first _ = false

unfoldable pub is_last : PayloadStatus → Bool
is_last last = true
is_last first_and_last = true
is_last _ = false

unfoldable pub from_status : Bool → Bool → PayloadStatus
from_status true true = first_and_last
from_status true false = first
from_status false true = last
from_status false false = middle

-- `PayloadStatus::from(reader.read_u8()?)`
unfoldable pub read_status : Reader PayloadStatus
unfolding ◌>>=◌ lift from_u8 read_u8
read_status = do value ← read_u8; lift (from_u8 value)

unfoldable pub write_status : PayloadStatus → Writer
unfolding write_u8 to_u8
write_status status = write_u8 (to_u8 status)

-- `let mut data = [0; size]; reader.read_exact(&mut data[0..length])?`
unfoldable pub read_payload : ℕ → ℕ → Reader (List ℕ)
unfolding ◌>>=◌ pure lift read_exact replicate
read_payload size len =
    if leb len size
    then (do bytes ← read_exact len; pure (bytes ++ replicate (size - len) 0))
    else lift panic

-- `writer.write_all(&data[0..length])?`
unfoldable pub write_payload : List ℕ → ℕ → Writer
unfolding write_all take
write_payload payload len = if leb len (length payload) then write_all (take len payload) else panic

module _ ⦃e : ByteOrder⦄ where
  -- `for i in 0..length { data[i] = reader.read_u64()?; }` over an array of which `size` elements are
  -- left.
  unfoldable pub read_pixels : ℕ → ℕ → Reader (List ℕ)
  unfolding ◌>>=◌ pure lift read_u64 replicate
  read_pixels size zero = pure (replicate size 0)
  read_pixels zero (suc len) = do value ← read_u64; lift panic
  read_pixels (suc size) (suc len) = do
    value ← read_u64
    values ← read_pixels size len
    pure (value ∷ values)

  -- `for i in 0..length { writer.write_u64(data[i])?; }`
  unfoldable pub write_pixels : List ℕ → ℕ → Writer
  unfolding ◌>>◌ write_all write_u64
  write_pixels payload zero = write_all []
  write_pixels [] (suc len) = panic
  write_pixels (value ∷ payload) (suc len) = do write_u64 value; write_pixels payload len
