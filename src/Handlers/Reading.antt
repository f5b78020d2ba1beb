-- ===== src/Handlers/Reading.antt =====
-- The handlers of src/request.c that read a request. What they do with the memory, the request and
-- its two connections is written as functions of a `World`; the configuration, the kernel and the C
-- library are a `System`.
pub mod Resource
pub mod Table
pub mod Headers
pub mod Body
pub mod Incoming
pub mod Runs
pub mod Rounds
pub mod Outcomes
pub mod Stages
pub mod Section
pub mod HostHeader
pub mod Names
pub mod Served
pub mod NewRequest
pub mod Answer
use sy_server.Base.{ℕ, Bool, ℤ, Option, none, some, List}
use sy_server.Memory.{Memory, Str}
use sy_server.Connection.{Connection}
use sy_server.Map.{Map}
use sy_server.Types.{Request, HeaderField}
use sy_server.Util.{Code, ok}
use sy_server.Response.Build.{response_build_err}

-- The functions of src/request.c that a header's `processor` points to, without their prefix
-- `sy_header_handle_`.
pub data Processor : Type 0 where
  generic hop t_encoding body_length target preference since : Processor

-- `sy_location_t`, as far as the handlers read it.
pub record Location : Type 0 where
  pub pass : Bool
  pub path : List ℕ

-- `date` and `mime` are those of the responses.
-- `case_equal m text a` tells whether `strncasecmp(text, a, n)` is 0 for the text's length `n`,
-- `atoi` is that of C. `open_file` is `openat` under the root, of the path at an address or, for
-- `none`, of "./"; `open_index` is `openat` of "index.html" under a directory. `is_dir` and
-- `file_size` are what `fstat` tells, and `html` is the constant string. `open_upstream` is
-- `sy_uwsgi_open_connection`: the address and the connection, or the address 0.
pub record System : Type 0 where
  pub date : List ℕ
  pub mime : Memory → Str → Option (List ℕ)
  pub header_map : Map (HeaderField × Processor)
  pub case_equal : Memory → List ℕ → ℕ → Bool
  pub atoi : Memory → ℕ → ℤ
  pub locations : List Location
  pub open_file : Memory → Option ℕ → ℤ
  pub open_index : ℤ → ℤ
  pub is_dir : ℤ → Bool
  pub file_size : ℤ → ℕ
  pub html : Str
  pub open_upstream : Location → ℕ × Connection

-- `upstream` is the connection that `uc` of the request points to, where there is one.
pub record World : Type 0 where
  pub memory : Memory
  pub request : Request
  pub connection : Connection
  pub upstream : Connection

-- `sy_response_build_err` as the handlers call it, with the code that it returns.
abbrev pub err_returned : World → Option (Memory × Request × Connection) → Option (Code × World)
err_returned w none = none
err_returned w (some (m, r, c)) = some (ok, record w { memory = m; request = r; connection = c })

unfoldable pub build_err : System → World → ℕ → Option (Code × World)
unfolding response_build_err
build_err sys w err =
    err_returned w (response_build_err sys.date w.memory w.request w.connection err)
