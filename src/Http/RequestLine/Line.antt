-- ===== src/Http/RequestLine/Line.antt =====
-- A whole request line.
use sy_server.Base.{
  ℕ, ◌+◌, ◌-◌, ◌≤◌, ◌<◌, ◌≡◌, refl, ◌∙◌, false, some, arith, List, [], ◌∷◌, ◌++◌, length,
  length-append,
}
use sy_server.Memory.{Memory}
use sy_server.Memory.Holds.{Holds, Holds-append}
use sy_server.Buffer.{size}
use sy_server.Types.{Method, rl_begin, rl_sp_before_version, hl_begin, uri_slash, Uri, Request}
use sy_server.Util.{ok}
use sy_server.Http.RequestLine.{parse_request_line, is_invalid, line_done}
use sy_server.Http.RequestLine.MethodText.{method_name, with_method, request_line_loop-method}
use sy_server.Http.Uri.Counts.{path_counts, counts_of}
use sy_server.Http.RequestLine.PathText.{IsPath, PathRead, request_line_loop-uri}
use sy_server.Http.RequestLine.VersionText.{version_text, request_line_loop-version}

-- A method, a path behind its slash and the version 1.v, and the line break.
abbrev pub request_text : Method → List ℕ → ℕ → List ℕ
request_text meth path v =
    (method_name meth ++ b' ' ∷ []) ++ ((b'/' ∷ path ++ b' ' ∷ []) ++ version_text v)

abbrev pub text_length : Method → List ℕ → ℕ
text_length meth path = length (method_name meth) + 1 + (length path + 2) + 10

-- The request behind such a line, with `u` for its URI.
abbrev pub requested : Request → Method → List ℕ → ℕ → Uri → Request
requested r meth path v u = record r {
  method = meth;
  version = record { major = 1; minor = v };
  request_line = record { addr = r.rb.begin; len = text_length meth path - 1 };
  uri = u;
  rb = record r.rb { begin = r.rb.begin + text_length meth path };
  state = hl_begin;
}

-- A request line of a known method, a path of allowed bytes, slashes and dots, and a version 1.v
-- with one digit, that a new request has received as a whole, is parsed with the code `ok`. The
-- request then has the method, the version, the line and the path that the text shows; the numbers
-- of its entries and of its parts `..` are counted on from those of the old URI as `path_counts`
-- does, for which an entry without a dot counts twice, and none counts behind more `..` than
-- entries; the path is cut down to its slash if there are more `..` than entries by these numbers.
-- The buffer begins behind the line, and the next state is that of the first header.
pub parse_request_line-text :
    (meth : Method) (path : List ℕ) (v : ℕ) (m : Memory) (r : Request)
    → is_invalid meth ≡ false
    → IsPath path
    → v < 10
    → r.state ≡ rl_begin
    → r.version ≡ record { major = 0; minor = 0 }
    → Holds m r.rb.begin (request_text meth path v)
    → text_length meth path ≤ size r.rb
    → (u : Uri) × (parse_request_line m r ≡ some (ok, requested r meth path v u))
      × PathRead r.uri
          (r.rb.begin + (length (method_name meth) + 1))
          (length path + 1)
          (path_counts uri_slash (counts_of r.uri) path)
          u
unfolding parse_request_line line_done
parse_request_line-text meth path v m r valid is_path digit st ver hold le =
    let a = length (method_name meth) + 1 in
    let b = length path + 2 in
    let p = r.rb.begin in
    let n = size r.rb in
    let rest = (b'/' ∷ path ++ b' ' ∷ []) ++ version_text v in
    let (h0, more) = Holds-append m p (method_name meth ++ b' ' ∷ []) rest hold in
    let e0 : p + length (method_name meth ++ b' ' ∷ []) ≡ p + a =
      omega (arith, length-append (method_name meth) (b' ' ∷ [])) in
    let (h1, h2) =
      Holds-append m (p + a) (b'/' ∷ path ++ b' ' ∷ []) (version_text v) (rw e0 at more) in
    let e1 : p + a + length (b'/' ∷ path ++ b' ' ∷ []) ≡ p + a + b =
      omega (arith, length-append path (b' ' ∷ [])) in
    let r1 = with_method r meth p in
    let first = request_line_loop-method meth n m r p valid st h0 (omega arith) in
    let (u, second, read) =
      request_line_loop-uri path (n - a) m r1 (p + a) is_path refl h1 (omega arith) in
    let third =
      request_line_loop-version (n - a - b) v (p + a + b) m
        (record r1 { state = rl_sp_before_version; uri = u }) digit (omega arith) refl ver
        (rw e1 at h2) in
    let f : p + a + b + 9 + 1 ≡ p + text_length meth path = omega arith in
    let g : p + a + b + 9 - p ≡ text_length meth path - 1 = omega arith in
    (u, first ∙ second ∙ third ∙ rw (f, g), read)
