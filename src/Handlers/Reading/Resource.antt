-- ===== src/Handlers/Reading/Resource.antt =====
-- `sy_match_location` and `sy_request_handle_uri`.
use sy_server.Base.{
  ℕ, ◌+◌, ◌-◌, ◌%◌, ◌^◌, ◌==◌, ℤ, pos, negsuc, Option, none, some, List, [], ◌∷◌, if◌then◌else◌,
}
use sy_server.Memory.{Memory, Str, write}
use sy_server.Types.{Request}
use sy_server.Util.{Code, ok}
use sy_server.Handlers.Sending.{is_open}
use sy_server.Handlers.Reading.{Location, System, World, build_err}

-- The first location whose path begins the path of the request.
unfoldable pub match_location : System → Memory → Str → List Location → Option Location
match_location sys m path [] = none
match_location sys m path (loc ∷ locs) =
    if sys.case_equal m loc.path path.addr then some loc else match_location sys m path locs

-- An `int` stored to a `uint16_t`.
abbrev pub to_u16 : ℤ → ℕ
to_u16 (pos n) = n % 2 ^ 16
to_u16 (negsuc n) = 2 ^ 16 - 1 - n % 2 ^ 16

-- The host and the port of the URI go to the request.
unfoldable pub take_host : System → Memory → Request → Request
take_host sys m r =
    if r.uri.host.addr == 0
    then r
    else if r.uri.port.addr == 0
    then record r { host = r.uri.host }
    else record r { host = r.uri.host; port = to_u16 (sys.atoi m r.uri.port.addr) }

abbrev pub with_uc : World → ℕ → World
with_uc w a = record w { request = record w.request { uc = a } }

-- The upstream of a location that passes requests on.
unfoldable pub pass_on : System → Location → World → Option (Code × World)
unfolding build_err
pass_on sys loc w =
    let (a, c) = sys.open_upstream loc in
    if a == 0
    then build_err sys (with_uc w a) 503
    else some (ok, record (with_uc w a) { upstream = c })

-- The length, an `off_t`, is stored into an `int`.
abbrev pub with_resource : World → ℤ → ℕ → World
with_resource w fd len = record w {
  request = record w.request { resource_fd = fd; resource_len = len % 2 ^ 32 };
}

abbrev pub with_extension : World → Str → World
with_extension w str =
    let r = w.request in record w { request = record r { uri = record r.uri { extension = str } } }

-- A directory stands for its index, which `fd` is.
abbrev pub serve_index : System → World → ℤ → Option (Code × World)
serve_index sys w fd =
    if is_open fd
    then some (ok, with_resource (with_extension w sys.html) fd (sys.file_size fd))
    else build_err sys w 403

abbrev pub serve_opened : System → World → ℤ → Option (Code × World)
serve_opened sys w fd =
    if is_open fd
    then if sys.is_dir fd
      then serve_index sys w (sys.open_index fd)
      else some (ok, with_resource w fd (sys.file_size fd))
    else build_err sys w 404

-- The path becomes a C string.
abbrev pub end_path : World → World
end_path w =
    let path = w.request.uri.abs_path in
    record w { memory = write w.memory (path.addr + path.len) 0 }

-- The file of the path.
unfoldable pub serve_file : System → World → Option (Code × World)
unfolding write build_err
serve_file sys w =
    let path = w.request.uri.abs_path in
    let rel_path = if path.len == 1 then none else some (path.addr + 1) in
    serve_opened sys (end_path w) (sys.open_file (end_path w).memory rel_path)

abbrev pub located : System → World → Option Location → Option (Code × World)
located sys w none = build_err sys w 404
located sys w (some loc) = if loc.pass then pass_on sys loc w else serve_file sys w

unfoldable pub handle_uri : System → World → Option (Code × World)
unfolding match_location take_host pass_on serve_file build_err
handle_uri sys w =
    let r = take_host sys w.memory w.request in
    located sys (record w { request = r })
      (match_location sys w.memory r.uri.abs_path sys.locations)
