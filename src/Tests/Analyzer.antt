-- ===== src/Tests/Analyzer.antt =====
-- The analyzer of the satellite at a concrete input.
use madmax_artiq_zynq.Base.{◌+◌, ◌≡◌, replicate, length-replicate}
use madmax_artiq_zynq.Outcome.{ok}
use madmax_artiq_zynq.Satman.Analyzer.{buffer_size, Analyzer, arm, get_header}
use madmax_artiq_zynq.Satman.Analyzer.Drain.{collect, recorded, collect-get_header}

-- The buffer has been filled once and 4712 bytes more.
collect-get_header_example :
    (a : Analyzer) × (collect
        (buffer_size + 1)
        64
        (replicate buffer_size 7)
        (get_header 0 0 529000).1
      ≡ ok (recorded 529000 (replicate buffer_size 7), a, arm 64))
collect-get_header_example =
    collect-get_header 64 0 0 529000 (replicate buffer_size 7) (length-replicate buffer_size 7)
