-- ===== src/Lib.antt =====
-- tcpkali is a load generator for TCP and WebSocket servers. The files here follow its sources
-- under src/, in the language of a model of their state and functions, and prove what these are
-- relied on for.
--
-- The parts and how they interact. The command line fills a message collection
-- (src/tcpkali_transport.c). A message may hold expressions, \{...} (src/tcpkali_expr.c), some of
-- which are regular expressions that make random strings (src/tcpkali_regex.c), and escapes
-- (src/tcpkali_data.c). When a connection is opened the engine (src/tcpkali_engine.c) converts the
-- collection into the buffer that is sent: it evaluates the expressions, with a callback for what
-- only the connection knows, and puts WebSocket frames around them (src/tcpkali_websocket.c). While
-- data is sent and received, the ring buffer (src/tcpkali_ring.h and .c) holds the times at which
-- messages were sent, to measure latency; and a server side answers an upgrade to WebSocket.
--
-- The files:
--   Base has the shared notation and lemmas: Boolean tests, lists over the native numbers, bits.
--   Ring is struct ring_buffer with ring_buffer_init, _add, _get, _grow and _next_right. Memory is a
--     list of cells; what malloc leaves in new memory is a parameter. Ring/Segments, Refine, Queue
--     and Runs relate it to a queue.
--   WebSocket/Frame is websocket_frame_header; WebSocket/Detect is http_detect_websocket, with the
--     digest (SHA-1 and base64, under deps) as a parameter.
--   Data/Unescape is unescape_data, Data/Printable is printable_data_highlight; Data/RoundTrip
--     relates them. What the stack holds in an array that is not initialised is a parameter.
--   Regex is struct tregex, Regex/Build its constructors, Regex/Eval is tregex_eval_rng with the
--     generator pcg32 as a parameter; Regex/Matches gives the strings of an expression and the sizes
--     that are right, Sized, Sizes, Built, Language and
--     Full the proofs.
--   Expr is tk_expr_t. Expr/Eval is eval_expression, with the callback and the generator as
--     parameters over one state; Expr/Eval/Fits says which sizes are right and which strings an
--     expression stands for. Expr/Build has concat_expressions, replicate_expression,
--     unescape_expression, has_subexpression and expression_split_by_websocket_frame; Average has
--     average_size, with the division of floats as a parameter.
--   Engine/Fields is expr_callback of the engine. Engine/Marker is override_timestamp and the parser
--     of markers in latency_record_incoming_ts, with the search for the token as a parameter.
--     Engine/Channel is update_io_interest and limit_channel_bandwidth; Engine/Addresses is
--     pick_remote_address.
--   Worker is struct loop_arguments of the engine with its open connections: Worker/Traffic has
--     src/tcpkali_traffic_stats.h and src/tcpkali_atomic.h, Connections the two structs and the list,
--     Rates src/tcpkali_rate.h, Open has start_new_connection, accept_cb and common_connection_init,
--     Close has close_connection, expire_channel_lives and the flush of traffic numbers, Chunk is
--     largest_contiguous_chunk, Sending and Receiving are the two halves of connection_cb (and the read
--     of passive_websocket_cb), and Events puts them together as events and runs of events. Served
--     is the interface to invariants of all events; Counters, Conserved, Exit, Lifetimes and the files
--     under Sending have the proofs. Worker/Latency has latency_record_outgoing_ts and
--     latency_record_incoming_ts over the ring of Ring, for a latency marker of the user.
--     Worker/Loops is the engine over all its workers: engine_initiate_new_connections,
--     engine_get_connection_stats and the end of engine_terminate.
--   Transport is the collection. Transport/Collect has message_collection_ensure_space, _add,
--     _add_expr, _replicate and _has; Finalize has message_collection_finalize and its order; Size
--     has the estimates; Payload is replicate_payload, with ceil of a division of
--     floats as a parameter; Convert is transport_spec_from_message_collection with callback_wrapper (its outer loop in Passes),
--     and Pieces is what the buffer should hold. The parser of expressions, which bison generates,
--     is a parameter.
--
-- Numbers. size_t has 64 bits and unsigned has 32. Sums and products that may wrap are written with
-- % 2 ^ 64 or % 2 ^ 32 (unsigned char: % 256); where a bound keeps them from wrapping it is a
-- hypothesis of the theorem. Memory is not refused.
--
-- Fuel. grow_space, digit_loop, digits_within, add_expr and passes recurse on a number of rounds.
-- A round of grow_space makes the size larger, so that the number asked for is enough; 19 rounds of
-- digit_loop pass 10 ^ 19, which no long reaches, and 64 bits have at most 20 digits; a round of
-- add_expr uses up a leaf of the expression; passes gets more rounds than the buffer has bytes, of
-- which an initial conversion takes one; a round of count_markers passes over a marker, which has
-- a byte.
--
-- Time. The clock, lifetimes and delays of the engine are floating point in the source; the model
-- counts them in natural numbers of one unit, without rounding.
--
-- Events. The event loop is a sequence of events in any order; what the operating system returns in
-- each is part of the event. An event on a connection that is not open does nothing. A callback ends
-- with a new worker, with the end of the process, or with a failed assertion. Connections use no
-- TLS, so that conn_blocked is 0.
--
-- Not modelled: threads, pipes and the event loop itself, TLS, latency histograms, statistics, DNS,
-- terminal and logging, which are calls of the operating system and of libraries; the pacefiers and
-- moving averages, which are floating point; the grammar and the lexer of expressions, which are
-- generated; free functions; the vendored code under deps.
mod Base
pub mod Ring
pub mod WebSocket
pub mod Data
pub mod Regex
pub mod Expr
pub mod Engine
pub mod Worker
pub mod Transport
