-- ===== src/Recorder.antt =====
-- src/libksupport/src/kernel/dma.rs: how a kernel's outputs are recorded, in the buffer of the recorder
-- that dma_record_start makes. Integers are their bit patterns: a byte of one is the same with and without
-- a sign. The clock, rtio::now_mu, is an argument.
pub mod Events
use madmax_artiq_zynq.Base.{
  ℕ, ◌+◌, ◌*◌, ◌/◌, ◌%◌, ◌^◌, List, [], ◌∷◌, ◌++◌, leb, if◌then◌else◌, length,
}
use madmax_artiq_zynq.Outcome.{Outcome, ok, err, panic, ◌>>=◌}
use madmax_artiq_zynq.Drtioaux.RoutingTable.{Result}

-- `(x >> shift) as u8`
unfoldable pub byte : ℕ → ℕ → ℕ
byte x shift = x / 2 ^ shift % 256

abbrev pub header_length : ℕ
header_length = 1 + 3 + 8 + 1

unfoldable pub dma_record_output_prepare : (timestamp target words : ℕ) → List ℕ → List ℕ
dma_record_output_prepare timestamp target words buffer =
    let length = header_length + words * 4 in
    buffer
    ++ (byte length 0
        ∷ byte target 8
        ∷ byte target 16
        ∷ byte target 24
        ∷ byte timestamp 0
        ∷ byte timestamp 8
        ∷ byte timestamp 16
        ∷ byte timestamp 24
        ∷ byte timestamp 32
        ∷ byte timestamp 40
        ∷ byte timestamp 48
        ∷ byte timestamp 56
        ∷ byte target 0
        ∷ [])

-- The bytes of a word.
unfoldable pub word_bytes : ℕ → List ℕ
word_bytes word = byte word 0 ∷ byte word 8 ∷ byte word 16 ∷ byte word 24 ∷ []

unfoldable pub dma_record_output : (timestamp target word : ℕ) → List ℕ → List ℕ
unfolding dma_record_output_prepare word_bytes
dma_record_output timestamp target word buffer =
    dma_record_output_prepare timestamp target 1 buffer ++ word_bytes word

unfoldable pub words_loop : List ℕ → List ℕ → List ℕ
unfolding word_bytes
words_loop [] buffer = buffer
words_loop (word ∷ words) buffer = words_loop words (buffer ++ word_bytes word)

unfoldable pub dma_record_output_wide : (timestamp target : ℕ) → List ℕ → List ℕ → Result (List ℕ)
unfolding dma_record_output_prepare words_loop
dma_record_output_wide timestamp target words buffer =
    if leb (length words) 16
    then ok (words_loop words (dma_record_output_prepare timestamp target (length words) buffer))
    else panic
