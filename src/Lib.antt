-- ===== src/Lib.antt =====
-- Verification library of SyServer, an HTTP server of one process with an event loop over epoll.
--
-- A connection owns a request, and a request owns two buffers, `rb` for what is received and `sb`
-- for the response. The event loop hands a readable connection to the handlers of request.c, which
-- fill `rb` from the socket, parse it in place by the machines of httpparse.c, and build the
-- response in `sb`. The strings of a request point into `rb`.
--
-- What models what, with paths from the root of the repository:
--
--   Memory   bytes at addresses, with C's `memmove`; `Str` is `sy_string_t` of src/base/string.h
--   Util     src/util.h: the result codes, `min` and `max`
--   Strings  src/base/string.h and src/base/string.c. The comparison reads up to a NUL; its loop has
--            2 ^ 31 rounds, which is where the addresses end
--   Map      src/base/map.h and src/base/map.c, with the slots under their indices; a slot behind
--            the array fails. The search has a
--            round for each slot that a chain can have, which `Found` shows to be enough
--   Vector   src/base/vector.h and src/base/vector.c, with `malloc` and `realloc` as functions of
--            the bytes that they are asked for
--   Pool     src/base/mempool.h and src/base/mempool.c. The words of the objects are a function of
--            addresses, and what `malloc` and `realloc` return are arguments
--   LinkedList  src/base/list.h, src/base/list.c and src/base/queue.h, on the words of the pool
--   Buffer   src/base/buffer.h and src/base/buffer.c. `Buffer` is `sy_buffer_t` with the address of
--            its array; the operations drop the prefix `sy_buffer_`. The kernel's answers to `recv`
--            and `send` are lists of events
--   Types    the enums and structs of src/server.h that a request is made of
--   Http     src/httpparse.c. `Http.Uri` is `sy_parse_uri`, `Http.RequestLine` is
--            `sy_parse_request_line` with `sy_parse_method`, `Http.HeaderLine` is
--            `parse_header_line`: a function for each state of a machine, and a loop
--   Connection  the connections of src/server.h, with the functions there that change the watch.
--            `Connection.Heap` is the heap of src/connection.c that orders them by activity; the
--            rounds of its loops are bounded by the index and by the size, which `ShiftUp` and
--            `ShiftDown` show to be enough
--   Response    src/response.c. `Response.Text` has the tables of statuses and error pages,
--            `Response.Out` the steps that write to the buffer, `Response.Build` is
--            `sy_response_build` and `sy_response_build_err`. The date, and the lookup in the table
--            of MIME types, are arguments; `Response.Mime` fills that table
--   Handlers    of src/request.c, how a request begins, and `Handlers.Sending`: the handlers
--            `sy_send_response_buffer` and `sy_send_response_file` with `sy_handle_response`, which
--            calls them in a loop. The kernel's answers in each round are lists, and a round that
--            is missing from them makes the loop fail: two are enough.
--            `Handlers.Reading`: `sy_handle_request`, which calls the handlers of request line,
--            headers and body in a loop, and what they call. They change a `World` (the memory, the
--            request, its connection and its upstream); a `System` holds what they ask of the
--            configuration, of the kernel and of the C library. The loop has three rounds, and
--            that of the headers one more than there are bytes; `Runs` has loops without a bound,
--            and by `Stages` and `Rounds` these bounds are enough.
--            `Answer` follows a request for a file through all of it. From src/httpparse.c come
--            `parse_request_body_identity`, in `Body`, and `sy_parse_header_host`, in `HostHeader`.
--            `Handlers.Upstream` has the two handlers of an upstream
--   Tests    the theorems at concrete inputs, and runs
--
-- Base holds the shared names: Boolean tests, lists under native indices, branching.
--
-- A function that may fail an `assert` returns `Option`, `none` being the abort. State is passed
-- explicitly: an operation takes the memory and the record it changes, and returns them behind its
-- result. A loop of a parser recurs on the number of bytes from `p` to the end of the buffer, which
-- is what the loop's test leaves, so there is no fuel to run out.
--
-- Pointers are natural numbers below 2 ^ 31, 0 being NULL, and bytes are natural numbers below 256.
-- The parsers compare a `char` with ASCII constants only; the comparison of strings and their hash,
-- for which its sign matters, write that out. Where a C function is declared but misspelt in the
-- source (`vector_t` for `sy_vector_t`, `string_init` for `sy_string_init`), the model reads the
-- evident name.
--
-- Not modelled: logging, signals, the start of the processes, and the configuration file, which
-- are calls of the C library and of cJSON. Nor are the opening and closing of connections, and the
-- splitting of header values, whose one caller nothing calls.
pub mod Base
pub mod Memory
pub mod Util
pub mod Strings
pub mod Map
pub mod Vector
pub mod Pool
pub mod LinkedList
pub mod Buffer
pub mod Types
pub mod Http
pub mod Connection
pub mod Response
pub mod Handlers
pub mod Tests
