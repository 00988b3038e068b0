-- ===== src/Lib.antt =====
-- A model of ngh2, the sans-I/O HTTP/2 connection of this repository: `src/ngh2/_core.pyx` with the
-- types of `src/ngh2/config.py`, `enums.py`, `events.pyx`, `exceptions.py` and `types.py`. The
-- application calls the methods of `Connection`, which validate their arguments, check the state and
-- call libnghttp2. While it sends and receives, libnghttp2 calls back: it asks for the bytes of
-- bodies, hands over output, and reports frames, of which the callbacks make events.
--
-- The parts:
--   Base           what the other files share: lists, dictionaries with integer keys, integers and
--                  words on the native numbers.
--   Values         the Python objects that an argument may be, by the built-in class that they are
--                  or derive from, and what iteration, unpacking and `operator.index` give of them.
--   Errors         the exception classes (`exceptions.py`), `_nghttp2_error`, `_frame_not_sent_error`.
--   Integers       `_integer` and the validators on it.
--   Enums          `Setting`, `ErrorCode`, and the coercions of `events.pyx`.
--   Settings       `_normalize_settings`, `_make_settings`, `pack_settings_payload`.
--   Headers        `_normalize_headers`, `_make_headers`, `NeverIndexedHeader`.
--   Config         `Role`, `Configuration` and its defaults.
--   Events         the event classes, by the fields that they store.
--   Engine         libnghttp2 as a parameter, with its frames and its callbacks.
--   Connection     the attributes of `Connection` and `_BodySource`, `__cinit__`, the guards
--                  `_require_*`, `_raise_*`, `_fail`, `_discard_pending_state`,
--                  `_update_terminal_state`.
--   Body           `_copy_body`, with its loop on fuel, and the append of `send_data`.
--   Callbacks      `_callback_failed`, `_random_bytes`.
--   Output         `_reserve_output`, `_collect_output`, `_send_body`, `_data_frame_length`,
--                  `_read_body`.
--   Receive        `_begin_headers`, `_header`, `_begin_frame`, `_data_chunk`, `_frame_received` and
--                  the handlers that it calls.
--   Lifecycle      `_stream_closed`, `_frame_sent`, `_frame_not_sent`.
--   Drive          `_configure_callbacks`, and a native call against the connection.
--   Transport      `receive_data`, `events`, `data_to_send`.
--   Setup          `__init__`, `_apply_configuration`, `initiate_connection`, `initiate_upgrade`.
--   Streams        the methods on a stream, from `send_request` to `reset_stream`.
--   Controls       the methods on the connection, from `update_settings` to `remote_settings`.
--   Bodies         `_bodies`, `_queued_body_size` and `_responses` together, over every callback, every
--                  method and any sequence of methods.
--   Calls          the methods as one type, with what any sequence of them keeps.
--   Closing        `_closed` and the ConnectionClosed events, over any sequence of methods.
--   Tests          an engine and connections on which the theorems are applied.
--
-- A method is an action, from the connection to its result or its exception and the connection after
-- it; what was assigned before a raise stays assigned. A callback is a function from the connection
-- to the engine's answer and the connection. An attribute keeps its name without the underscore.
-- Sizes and counts are natural numbers: `size_t` wraps at 2^64 where the code adds or subtracts, a
-- C integer that may be negative is an integer, and NULL and None are `none`. The platform has 64
-- bits.
--
-- Each part has its definitions in the file of its name, and what is proved of them in the files of
-- the folder. What a method keeps is put together from what its steps keep (Connection/Keeps,
-- Setup/Keeps, Transport/Keeps), so that each further invariant needs its steps only.
--
-- The loop of `_copy_body` has the number of queued chunks as its fuel: each round but the last ends
-- a chunk. A native call that calls back returns a finite tree of callbacks, so that running it needs
-- no fuel. A list of exception bases has fuel for the depth of the class tree.
--
-- Assumed of code outside the repository: libnghttp2 is the record `Engine`, any functions at all; a
-- theorem that needs more of it says so. Its submit functions do not call back. The allocator is the
-- predicate `allocates`, and memory that was not written reads as zeros. Conversions of an argument
-- are taken from the value that is given and do not change the connection.
--
-- Python's own allocations of small objects do not fail: an event, its bytes and its tuples are made.
--
-- Not modelled: the checks of the event constructors on arguments of other types, which only an
-- application that makes events itself can meet; the text of exceptions, the release of native objects, the type stubs, the package
-- initialisation, and the examples, benchmarks, tests and documentation, which only use the library.
pub mod Base
pub mod Values
pub mod Errors
pub mod Integers
pub mod Enums
pub mod Settings
pub mod Headers
pub mod Config
pub mod Events
pub mod Engine
pub mod Connection
pub mod Body
pub mod Callbacks
pub mod Output
pub mod Receive
pub mod Lifecycle
pub mod Drive
pub mod Transport
pub mod Setup
pub mod Streams
pub mod Controls
pub mod Bodies
pub mod Calls
pub mod Closing
pub mod Tests
