-- ===== src/Lib.antt =====
-- mlx5-netperf: a client and a server that send packets through the queues of a Mellanox NIC, the
-- driver part in user space. Most of what it keeps are rings and pools that are shared with the
-- hardware; this library models those and proves what the rest of the program relies on.
--
-- The parts, from the bottom up, and the file that models each (paths from the repository's root):
-- - Prelude: what the others share: tests, lists, machine words, bit operations (with the laws of
--   their digits in Prelude.Digits), and Outcome, the result of a C function: a value, an error
--   code, or a fault, which stands for an access out of bounds, a failed BUG_ON or a panic;
--   Prelude.Inversion takes a chain of steps that succeeded apart. NETPERF_ASSERT and the debug
--   checks are empty, as in the release build.
-- - Stddef (inc/base/stddef.h): is_power_of_two, align_up, align_down, div_up and the wrap-safe
--   comparisons wraps_lt, wraps_lte, wraps_gt, wraps_gte.
-- - Mempool (mempool.c, inc/base/mempool.h): `create` is mempool_create with its loops as
--   `populate`, `populate_pages`, `populate_page`; `alloc` and `free` are mempool_alloc and
--   mempool_free. The array of free items is a list, a pointer its address.
-- - Mbuf (inc/base/mbuf.h): the record is struct mbuf, the operations have the names of the source
--   without `mbuf_`, and `pull_unchecked` is __mbuf_pull.
-- - Refcnt (mlx5_rxtx.c, mlx5_init.c): server_change_refcnt and server_init_refcnt_array; a virtual
--   segment is a position in one of several arrays of counts. What malloc answers is an argument.
-- - Completion (inc/mlx5_rxtx.h): mbuf_free and the release functions it calls through the mbuf.
--   They use the pools and the counts, which World holds together with the mbufs by address.
-- - Tx (inc/mlx5.h, mlx5_rxtx.c): the send queue. Tx has its state, Txq, and the completion side,
--   mlx5_gather_completions; Tx.Ring the writes into the ring, mlx5_inline_data and the loop over
--   the data segments; Tx.Post the posting side, mlx5_fill_tx_segment to mlx5_transmit_batch, which
--   cleans the queue through Tx and Completion.
-- - Rx (mlx5_rxtx.c, inc/mlx5_rxtx.h): the receive queue, mlx5_gather_rx, mlx5_refill_rxqueue and
--   mbuf_fill_cqe. It takes its buffers from a pool of Mempool and reads completions as Tx does.
-- - Mbufq (inc/net/mbufq.h): the queues of mbufs; the operations have the names of the source
--   without `mbufq_`.
-- - Requests (requests.c): initialize_pointer_chasing_at_client, with its loops as `count_up`,
--   `shuffle` and `write_pointers`, initialize_client_requests, as `fill_requests` and
--   `fill_offsets`, and initialize_server_memory, as `fill_regions`. What rand and malloc return,
--   and what is computed in floating point, are arguments.
-- - Headers (inc/base/byteorder.h, inc/net/ethernet.h, inc/net/ip.h, inc/net/udp.h, requests.c,
--   main.c): the structs of the headers as records, with their bytes in memory (`in_memory`) and in
--   a packet (`in_packet`, `headers_at`); the functions that write the headers of requests and
--   replies, flip_headers as `flip`, and check_valid_packet.
-- - Latency (latency.c): the packet map and the distribution of latencies as records, their arrays
--   functions of the index; `calculate_latencies` has its three loops as `clear_groups`,
--   `group_packets` and `collect_latencies`.
-- - Server (main.c): the state of the server over World and the send queue, with the bytes of the
--   buffers by address. Server.Packet builds a reply, as the zero-copy and the copying branch of
--   process_server_requests do; Server.Process is the rest of that function, process_echo_requests
--   and the early returns; Server.Burst is do_server, whose rounds take packets from Rx, check them
--   through Headers and free them through Completion.
-- - Client (main.c, latency.c): the client over the same World and send queue. `prepare` fills an
--   mbuf with a request, `transmit` is the loop around mlx5_transmit_one, `client_round` one round
--   of the loop of do_client with `receive_all` and the wait for the next request, and `do_client`
--   the whole function with the evaluation of the latencies. Client.Required is
--   calculate_total_packets_required, Client.Stuck the first send.
-- - Bitmap (bitmap.c, inc/base/bitmap.h): the operations on arrays of words and the searches; the
--   parser of ranges in bitmap.c is a copy from util-linux and left out.
-- - Lrpc (inc/base/lrpc.h): the channel between two cores. A send and a receive are one step each;
--   __lrpc_send, which the repository does not define, is an argument.
-- - Setup (mlx5_init.c, mem.c): Setup.Memory has mem_map_anom and the memory of the pools and of the
--   working set; Setup is mlx5_init_rxq, with its loops as `fill_queue` and `hand_over`, over the
--   pools of Mempool and the queue of Rx; Setup.Txq is mlx5_init_txq, over the queue of Tx. What the
--   kernel, rdma-core and the allocator answer are arguments. Left out are the attributes of those
--   calls, the handle `rxq` inside the queue, which nothing reads, and the release of a mapping.
--
-- The hardware writes the completion queue; here its content is a field that the driver reads, and
-- the theorems say which content they are about. rdma-core is not part of the repository: its
-- constants and the bytes of its segments are the fields of Mlx5dv, with the values and sizes that
-- its interface documents as laws. Barriers and logging have no value to model.
--
-- Unsigned machine integers wrap at their width (Prelude.Word). Where C leaves the overflow of an
-- `int` undefined, Bitmap and Client.Required have a fault, and Tx.Post has the wrapped bits. The
-- loops over a chain of mbufs take the number of rounds that they may run; a theorem on a chain
-- asks for as many as it is long, and running out is a fault. The other loops recurse on what is
-- left to do. `post_mbufs` and the client's `transmit` take the number of their tries, and what the
-- hardware does in between: in the program they go on until the hardware makes room, and running
-- out of tries is a fault. The client's loop takes the number of its rounds and the clock as a
-- function of the number of reads; a theorem says how many rounds a wait takes.
--
-- Not modelled: the printing of latencies, the command line and the start of the program; the
-- checksum sums, which are DPDK's and a parameter of what calls them; the calls of rdma-core that
-- find the device, register memory and install flow rules; the other system interfaces, headers
-- with layouts only, and the build files.
pub mod Prelude
pub mod Stddef
pub mod Mempool
pub mod Mbuf
pub mod Refcnt
pub mod Completion
pub mod Tx
pub mod Rx
pub mod Mbufq
pub mod Requests
pub mod Headers
pub mod Latency
pub mod Server
pub mod Client
pub mod Bitmap
pub mod Lrpc
pub mod Setup
