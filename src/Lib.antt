-- ===== src/Lib.antt =====
-- sp-rtrace: a tracer of the calls that allocate and free resources, and its post-processor.
--
-- A traced process loads src/modules/sp_rtrace_main.c, which writes packets into a pipe: a
-- handshake, then modules, resource types, contexts, the process, the heap, and each traced call
-- with its arguments and its backtrace. src/rtrace-postproc/parse_binary.c reads the packets from
-- the other end, or from the file or pipe to which the listener of src/rtrace/listener.c has passed
-- them on, into the trace data of src/common/rtrace_data.c. Both sides use the readers and
-- writers of src/common/sp_rtrace_proto.h.
--
-- Proto: src/common/sp_rtrace_proto.h. Read and Write have the functions of the source by their
--   names; Encode says what the values look like as bytes, apart from the code.
-- Tracer: the tracing module. Pipe is the double buffer (pipe_buffer_flush, pipe_buffer_lock,
--   pipe_buffer_unlock, pipe_buffer_reset) with its memory; Packet the PACKET macros over a cursor;
--   Decimal _itoa and _atoi; Handshake write_handshake; Initial write_initial_data; Register
--   sp_rtrace_register_resource; Events the write_* functions, sp_rtrace_write_new_library and
--   sp_rtrace_write_context_registry; Call sp_rtrace_write_function_call; Filter
--   sp_rtrace_filter_validate of src/library/sp_rtrace_filter.c.
-- Binary: the reader. Data is src/common/rtrace_data.h with rd_fcall_set_ftrace; Packets the
--   read_packet_* functions; Generic read_generic_packet with its static variables; Loop
--   read_binary_data; Chunks the packets that arrive in pieces; Start the handshake, with the byte
--   that src/rtrace-postproc/sp_rtrace_postproc.c reads first.
-- Postproc: src/rtrace-postproc/filter.c. Leaks is filter_leaks with fcall_remove_freed, its table
--   (src/common/htable.c) and the loop of src/common/dlist.c; Leaks/Pending says apart from the
--   code which allocations are freed later. Blocks is filter_find_lowhigh_blocks and
--   filter_sum_leaks. Select has the filters by context, resource type, index and address.
-- Modules: Memory is what the traced allocation functions of src/modules/sp_rtrace_memory.c report.
--   Memory/Live says apart from the code which blocks a process holds, Memory/Leaked and
--   Memory/Report compare them with what filter_leaks leaves. File is the same for the descriptors
--   and streams of src/modules/sp_rtrace_file.c: State its table of descriptor types, Common and
--   Trace the tracing functions, Calls what stands in for the C library; Live says what is open,
--   Told, Kinds and Report compare. Held is what both share: keys that are held, and
--   left. Emulated is the allocator of sp_rtrace_memory.c on its internal heap; Ready, Blocks,
--   Steps, Requests, Sound and Moved are proofs about it. Shmposix is
--   src/modules/sp_rtrace_shmposix.c: Names its registry of object names, Trace the other
--   registries and the tracing functions; Distinct and Mapped are proofs. Its trees are lists of
--   nodes, its malloc and strdup succeed, and what DO_CLEANUP and TRACE_MMAP2 guard is left out.
--   Shmsysv is src/modules/sp_rtrace_shmsysv.c with its table as a list; Attached says apart from
--   the code which segment is attached at an address.
-- Dlist: src/common/dlist.c on a heap of nodes; Chain says what a list on the heap stands for,
--   Linked, Ends, Insert, Sorted and Visit are proofs.
-- Rtrace: Listener is src/rtrace/listener.c: flush_data, write_data, process_handshake and
--   process_packet; Maps the mappings of scan_mmap_data; Loop process_data. Packet, Passing,
--   Buffered, Forward, Strings, Special, Scan and Session are proofs about them.
-- Resolve: NameCache is src/rtrace-resolve/namecache.c; Memo its use in rs_resolve_address;
--   its branch keep_resolved, which does not use the cache, is left out. SortedArray is
--   src/rtrace-resolve/sarray.c; Onto, Added and Found are proofs. Mmaps is the array of mappings
--   of src/rtrace-resolve/resolver.c; Compared and Lookup are proofs.
-- EndToEnd: the two ends together; Announced, Session, Shown and Relay put the
--   listener between them.
-- Tests: examples.
--
-- Numbers are natural numbers; an int or a long is its bit pattern, and a conversion to fewer bits
-- is a remainder. The hosts are little-endian with 8-byte pointers. The memory of the pipe buffer
-- is a function from addresses to bytes, without bounds; IsReady and the sizes of packets keep it
-- in bounds. A pointer to a stored record is its position in the list, since the reader only
-- appends; where calls are removed it is the place that the call had before. A read past the data
-- is a fault.
--
-- The padding loop of write_string has fuel 3, which the padding never exceeds; bt_hash has fuel
-- 22, since 22 shifts by 3 empty a 64-bit value; the inner loop of the reader has more fuel than
-- bytes, and each packet takes at least one, as in the listener; _itoa has one round more than the value;
-- the search for a free number of an object name has one round more than there are names;
-- the search of sarray_find has as many rounds as elements; the loops over a list on the heap take
-- a fuel that is stated to reach for its nodes.
--
-- Where the code and the document BINARY_PROTOCOL differ, the model follows the code: the order of
-- the fields of a call, the arguments in front of the backtrace, and the output settings, which the
-- listener passes on. The reader does not check the ids of resource types against its array of 33,
-- and the listener not the size of a handshake against its buffer of 256 bytes; the statements say
-- where they assume so.
--
-- Given from outside: the answer of write, the frames of backtrace, the context mask, the clock and
-- the chunks that read returns, the answers of the C library's allocation functions, the lines of
-- /proc/<pid>/maps as sscanf stores them, and the output that the listener connects. A write takes
-- everything or fails; it is asked as often as the source asks, and in the listener the answers of
-- the system are given for each packet. Not modelled: threads (a locked buffer is an answer of its own, not
-- a wait), the environment and the signals of the tracing module, the wrappers of the other traced
-- functions, the text formats, symbol resolution, and the report tools.
pub mod Prelude
pub mod Proto
pub mod Dlist
pub mod Tracer
pub mod Binary
pub mod Postproc
pub mod Modules
pub mod Rtrace
pub mod Resolve
pub mod EndToEnd
pub mod Tests
