-- ===== src/Lib.antt =====
-- The ARTIQ firmware for Zynq: a master (src/runtime) and satellites (src/satman) that talk over the
-- auxiliary channel of DRTIO links (src/libboard_artiq), with their readers and writers in src/libio.
--
-- The parts, from the bytes up:
--   Io.Cursor is src/libio/cursor.rs: a position in a buffer, its reads and writes, and the standard
--   loops read_exact and write_all over them. Io.Proto is src/libio/proto.rs: the readers and writers of
--   integers, byte strings and strings. A reader takes what is left to be read, a writer returns its
--   bytes, which is how the cursor's own theorems (Io.Cursor.Exact) let the packets see it.
--   Drtioaux.Payload, .Packet, .Packet.Routable, .Read and .Write are
--   src/libboard_artiq/src/drtioaux_proto.rs: the payload status, the eighty packets, routable_destination
--   and expects_response, and the arms of read_from and write_to, in four groups by their codes. Each
--   group tries its codes and passes the others on to the next.
--   Drtioaux.Link is src/libboard_artiq/src/drtioaux.rs: recv, recv_timeout and send over the receive and
--   transmit memories, with the padding and the checksum. The registers are the fields of Link, and
--   writes to them are a log, newest first.
--   Drtioaux.RoutingTable is src/libboard_artiq/src/drtio_routing.rs.
--   Satman.Sliceable and Satman.Router are src/satman/src/routing.rs; Router also has the decision of
--   forward! in src/satman/src/drtiosat_aux.rs. Satman.Messages is the MessageManager of
--   src/satman/src/subkernel.rs, which sends its messages as slices through the router, and
--   Satman.Library its kernel libraries.
--   Satman.Analyzer is src/satman/src/analyzer.rs, on a buffer that is given.
--   Satman.Dma is src/satman/src/dma.rs. Entry is a trace in memory, Remote the traces that other
--   satellites play, Manager the local operations, Subkernel those that route packets or answer replies;
--   TreeMap is the ordered map of the standard library. The manager of kernels, which two of the replies
--   are passed to, is the interface KernelManager. Where a vector lies in memory is the allocator's
--   choice: every call that can move one takes the address.
--   Satman.Subkernel is the manager of kernels in src/satman/src/subkernel.rs. State has the operations
--   that the packet handlers call, Report the bytes of an exception, Channel the channel to the other core,
--   Step the sequences of calls that `?` can end, Pass the values of a message for the kernel, Requests what
--   the kernel waits for, and Turn the kernel's messages and a turn of the main loop. Keeps and Sound are
--   the invariant of the operations; Reachable, Loads, Finished, Retrieved and Awaits stand on them.
--   Satman.Handlers is process_aux_packet of src/satman/src/drtiosat_aux.rs, for the packets of distributed
--   DMA and of subkernels: it calls the managers above, and replies through the router. Handlers.Links has
--   the reset, the state of a destination, the routing table and the rank.
--   Satman.Repeater is src/satman/src/repeater.rs, the links to the satellites behind this one.
--   Recorder is the recording of outputs in src/libksupport/src/kernel/dma.rs, whose buffer the DMA
--   manager of the satellite reads.
--   Rpc is src/libksupport/src/rpc.rs: Tag is the iterator of tags, Layout their alignments and sizes, and
--   Recv the values that are received into a memory, with the stores as a log, newest first.
--
-- Conventions. Base passes the library's names on and adds Boolean tests and lists over the native
-- numbers. A call returns an Outcome: a value, an error of its own type, or a panic, which stands for an
-- index out of range and for unreachable!. Machine integers are numbers below 2 ^ w, and a cast keeps its
-- wrap-around. The byte order of the target (the crate byteorder) is an instance argument, ByteOrder,
-- with the law that reading undoes writing; Tests.LittleEndian has the concrete one. The checksum (the
-- crate crc) is a function parameter. The number of repeaters, csr::DRTIOREP.len(), comes from the
-- generated hardware description and is a parameter too. What libconfig reads is an argument.
--
-- Loops. The loops over ranges are structural. The receive timeout counts polls of the clock. A slice
-- loop has one round more than there are bytes to send, since every slice but the last has a byte, and
-- the loop that splits a recording has one more than the buffer has bytes, since every event has a byte.
-- A tag is read, and a value received, on as much fuel as there are bytes of tags, since a tag takes a byte.
-- A packet is forwarded on one round more than there are replies.
--
-- Kernels. What the manager of kernels does not decide is an argument: the clock, the places that the
-- other core and the allocator give, how often a channel is polled, the turns in which messages arrive, the
-- check of UTF-8, the name of a channel in a message, and the text that describes an error. The receiver
-- of src/satman/src/rpc_async.rs is the one of Rpc.Recv: it differs by the waits only.
--
-- Not modelled: the loader, the unwinder, the drivers of peripherals, the host protocol, the sending of
-- values in rpc.rs, the satellite's main loop and the packet handlers that are not named above, and the
-- managers of the master. The code without the feature has_drtio_routing is left out. The errors of an
-- inner call that `?` converts are converted where the reader is defined. The busy wait for a free
-- transmitter is left out of send, and logging everywhere.
pub mod Base
pub mod Outcome
pub mod Io
pub mod Drtioaux
pub mod Tests
pub mod TreeMap
pub mod Recorder
pub mod Rpc
pub mod Satman
