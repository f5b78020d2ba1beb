-- ===== src/Tests/Reading.antt =====
-- The handlers that read a request, at one that is received as a whole.
use sy_server.Base.{ℕ, List, [], ◌∷◌, ◌++◌, codes, some, false, true, pos, minus_one, refl, arith}
use sy_server.Memory.{null_str}
use sy_server.Map.{empty_map}
use sy_server.Types.{HeaderField, hl_begin, handle_headers}
use sy_server.Connection.{Connection, front}
use sy_server.Handlers.Reading.{generic, Location, System, World}
use sy_server.Handlers.Reading.Headers.{handle_headers_loop}
use sy_server.Handlers.Reading.Incoming.{handle_request_loop}
use sy_server.Handlers.Reading.Runs.{Run}
use sy_server.Handlers.Reading.Rounds.{headers_round, handle_headers_loop-Run}
use sy_server.Handlers.Reading.Stages.{request_round, handle_request_loop-Run}
use sy_server.Tests.Data.{holding, requesting}

abbrev pub line : List ℕ
line = codes "GET /a.html HTTP/1.1" ++ b'\r' ∷ b'\n' ∷ []

abbrev pub headers : List ℕ
headers = codes "Host: a.b" ++ b'\r' ∷ b'\n' ∷ b'\r' ∷ b'\n' ∷ []

abbrev pub root : Location
root = record { pass = false; path = codes "/" }

abbrev pub watched : Connection
watched = record {
  fd = 5;
  side = front;
  watch_in = true;
  watch_out = false;
  r = 1;
  active_time = 0;
  heap_idx = 1;
}

-- One location, every file of ten bytes, no header known.
abbrev pub sys : System
sys = record {
  date = codes "Date: Thu, 01 Jan 1970 00:00:00 GMT\r\n";
  mime = λ m ext. some (codes "text/html");
  header_map = empty_map (HeaderField.host, generic) 131 262;
  case_equal = λ m text a. true;
  atoi = λ m a. pos 0;
  locations = root ∷ [];
  open_file = λ m path. pos 7;
  open_index = λ fd. minus_one;
  is_dir = λ fd. false;
  file_size = λ fd. 10;
  html = null_str;
  open_upstream = λ loc. (0, watched);
}

abbrev world : World
world = record {
  memory = holding (line ++ headers);
  request = requesting (line ++ headers);
  connection = watched;
  upstream = watched;
}

abbrev before_headers : World
before_headers = record {
  memory = holding headers;
  request = record (requesting headers) { state = hl_begin; in_handler = handle_headers };
  connection = watched;
  upstream = watched;
}

handle_headers_loop-Run_example :
    Run (headers_round sys) before_headers (handle_headers_loop 14 sys before_headers)
handle_headers_loop-Run_example = handle_headers_loop-Run 14 sys before_headers refl (omega arith)

handle_request_loop-Run_example : Run (request_round sys) world (handle_request_loop 3 sys world)
handle_request_loop-Run_example = handle_request_loop-Run 0 sys world
