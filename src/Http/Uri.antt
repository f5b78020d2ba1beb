-- ===== src/Http/Uri.antt =====
-- `sy_parse_uri`, which takes one byte of a URI at address `p`. Each state of the machine is a
-- function on the byte `ch`; the last fields of a `case` are written out where the source falls
-- through to the next one.
pub mod Path
pub mod Counts
use sy_server.Base.{ℕ, ◌+◌, ◌-◌, Bool, ◌||◌, leb, ◌==◌, if◌then◌else◌, within}
use sy_server.Memory.{Memory, Str}
use sy_server.Types.{
  Uri, UriState, uri_begin, uri_scheme, uri_scheme_colon, uri_scheme_slash, uri_scheme_slash_slash,
  uri_host, uri_port, uri_dot, uri_ddot, uri_slash, uri_entry, uri_extension, uri_query,
}
use sy_server.Util.{Code, ok, err_invalid_uri}

abbrev pub is_upper : ℕ → Bool
is_upper ch = within b'A' b'Z' ch

abbrev pub is_lower : ℕ → Bool
is_lower ch = within b'a' b'z' ch

abbrev pub is_digit : ℕ → Bool
is_digit ch = within b'0' b'9' ch

abbrev pub is_alpha : ℕ → Bool
is_alpha ch = is_upper ch || is_lower ch

abbrev pub is_alnum : ℕ → Bool
is_alnum ch = is_upper ch || is_lower ch || is_digit ch

-- ALLOWED_IN_ABS_PATH, and ALLOWED_IN_EXTENSION, which is the same.
unfoldable pub allowed_in_abs_path : ℕ → Bool
allowed_in_abs_path ch =
    is_alnum ch
    || ch == b'-'
    || ch == b'_'
    || ch == b'!'
    || ch == b'~'
    || ch == b'*'
    || ch == b'\''
    || ch == b'('
    || ch == b')'
    || ch == b'%'
    || ch == b':'
    || ch == b'@'
    || ch == b'&'
    || ch == b'='
    || ch == b'+'
    || ch == b'$'
    || ch == b','
    || ch == b';'

unfoldable pub allowed_in_query : ℕ → Bool
allowed_in_query ch = ch == b'.' || ch == b'/' || ch == b'?' || allowed_in_abs_path ch

-- `s->data = p`, `s->len = p - s->data`, and `++s->data` before it.
abbrev pub starting : Str → ℕ → Str
starting s p = record s { addr = p }

abbrev pub ending : Str → ℕ → Str
ending s p = record s { len = p - s.addr }

abbrev pub ending_after : Str → ℕ → Str
ending_after s p = record { addr = s.addr + 1; len = p - (s.addr + 1) }

-- `if (uri->nentries >= uri->nddots) ++uri->nentries;`
unfoldable pub count_entry : Uri → Uri
count_entry u = if leb u.nddots u.nentries then record u { nentries = u.nentries + 1 } else u

unfoldable pub begin_step : Uri → ℕ → ℕ → Code × Uri
begin_step u p ch =
    if ch == b'/'
    then (ok, record u { abs_path = starting u.abs_path p; state = uri_slash })
    else if is_alpha ch
    then (ok, record u { scheme = starting u.scheme p; state = uri_scheme })
    else (err_invalid_uri, u)

unfoldable pub scheme_step : Uri → ℕ → ℕ → Code × Uri
scheme_step u p ch =
    if is_alnum ch || ch == b'+' || ch == b'-' || ch == b'.'
    then (ok, u)
    else if ch == b':'
    then (ok, record u { scheme = ending u.scheme p; state = uri_scheme_colon })
    else (err_invalid_uri, u)

-- The two states that want a `/`.
unfoldable pub scheme_slash_step : UriState → Uri → ℕ → Code × Uri
scheme_slash_step next u ch =
    if ch == b'/' then (ok, record u { state = next }) else (err_invalid_uri, u)

unfoldable pub host_begin_step : Uri → ℕ → ℕ → Code × Uri
host_begin_step u p ch =
    if is_alnum ch
    then (ok, record u { host = starting u.host p; state = uri_host })
    else (err_invalid_uri, u)

unfoldable pub host_step : Uri → ℕ → ℕ → Code × Uri
host_step u p ch =
    if is_alnum ch || ch == b'.' || ch == b'-'
    then (ok, u)
    else if ch == b':'
    then (ok, record u { state = uri_port })
    else if ch == b'/'
    then (ok, record u { abs_path = starting u.abs_path p; state = uri_slash })
    else (err_invalid_uri, u)

unfoldable pub port_step : Uri → ℕ → ℕ → Code × Uri
port_step u p ch =
    if ch == b' '
    then (
      ok,
      record u {
        abs_path = record { addr = u.host.addr - 2; len = 1 };
        port = ending_after u.port p;
        state = uri_begin;
      },
    )
    else if ch == b'/'
    then (
      ok,
      record u {
        abs_path = starting u.abs_path p;
        port = ending_after u.port p;
        state = uri_slash;
      },
    )
    else if is_digit ch
    then (ok, u)
    else (err_invalid_uri, u)

-- What ' ' and '?' do in the states of the path: they end it.
abbrev pub end_path : Uri → ℕ → Uri
end_path u p = record u { abs_path = ending u.abs_path p; state = uri_begin }

abbrev pub begin_query : Uri → ℕ → Uri
begin_query u p = record u {
  abs_path = ending u.abs_path p;
  query = starting u.query p;
  state = uri_query;
}

unfoldable pub slash_step : Uri → ℕ → ℕ → Code × Uri
slash_step u p ch =
    if ch == b' '
    then (ok, end_path u p)
    else if ch == b'.'
    then (ok, record u { state = uri_dot })
    else if ch == b'?'
    then (ok, begin_query u p)
    else if ch == b'/'
    then (ok, u)
    else if allowed_in_abs_path ch
    then (ok, record u { state = uri_entry })
    else (err_invalid_uri, u)

unfoldable pub dot_step : Uri → ℕ → ℕ → Code × Uri
dot_step u p ch =
    if ch == b' '
    then (ok, end_path u p)
    else if ch == b'.'
    then (ok, record u { state = uri_ddot })
    else if ch == b'?'
    then (ok, begin_query u p)
    else if ch == b'/'
    then (ok, record u { state = uri_slash })
    else if allowed_in_abs_path ch
    then (ok, record u { extension = starting u.extension (p - 1); state = uri_extension })
    else (err_invalid_uri, u)

unfoldable pub ddot_step : Uri → ℕ → ℕ → Code × Uri
ddot_step u p ch =
    let counted = record u { nddots = u.nddots + 1 } in
    if ch == b' '
    then (ok, end_path counted p)
    else if ch == b'.'
    then (ok, record u { extension = starting u.extension p; state = uri_extension })
    else if ch == b'?'
    then (ok, begin_query counted p)
    else if ch == b'/'
    then (ok, record counted { state = uri_slash })
    else if allowed_in_abs_path ch
    then (ok, record u { extension = starting u.extension p; state = uri_extension })
    else (err_invalid_uri, u)

unfoldable pub extension_step : Uri → ℕ → ℕ → Code × Uri
extension_step u p ch =
    let counted = count_entry u in
    let ended = record counted { extension = ending_after u.extension p } in
    if ch == b' '
    then (ok, end_path ended p)
    else if ch == b'.'
    then (ok, record u { extension = starting u.extension p })
    else if ch == b'/'
    then (ok, record counted { extension = record u.extension { addr = 0 }; state = uri_slash })
    else if ch == b'?'
    then (ok, record ended { query = starting u.query p; state = uri_query })
    else if allowed_in_abs_path ch
    then (ok, u)
    else (err_invalid_uri, u)

-- The inner switch of URI_S_ABS_PATH_ENTRY. No `break` follows it, so where it does not return,
-- the switch of URI_S_EXTENSION takes the same byte.
unfoldable pub entry_step : Uri → ℕ → ℕ → Code × Uri
entry_step u p ch =
    if ch == b' '
    then extension_step (end_path (count_entry u) p) p ch
    else if ch == b'.'
    then extension_step (record u { extension = starting u.extension p; state = uri_extension }) p
        ch
    else if ch == b'?'
    then extension_step (begin_query (count_entry u) p) p ch
    else if ch == b'/'
    then extension_step (record (count_entry u) { state = uri_slash }) p ch
    else if allowed_in_abs_path ch
    then extension_step u p ch
    else (err_invalid_uri, u)

unfoldable pub query_step : Uri → ℕ → ℕ → Code × Uri
query_step u p ch =
    if ch == b' '
    then (ok, record u { query = ending_after u.query p; state = uri_begin })
    else if allowed_in_query ch
    then (ok, u)
    else (err_invalid_uri, u)

unfoldable pub uri_step : UriState → Uri → ℕ → ℕ → Code × Uri
uri_step uri_begin u p ch = begin_step u p ch
uri_step uri_scheme u p ch = scheme_step u p ch
uri_step uri_scheme_colon u p ch = scheme_slash_step uri_scheme_slash u ch
uri_step uri_scheme_slash u p ch = scheme_slash_step uri_scheme_slash_slash u ch
uri_step uri_scheme_slash_slash u p ch = host_begin_step u p ch
uri_step uri_host u p ch = host_step u p ch
uri_step uri_port u p ch = port_step u p ch
uri_step uri_slash u p ch = slash_step u p ch
uri_step uri_dot u p ch = dot_step u p ch
uri_step uri_ddot u p ch = ddot_step u p ch
uri_step uri_entry u p ch = entry_step u p ch
uri_step uri_extension u p ch = extension_step u p ch
uri_step uri_query u p ch = query_step u p ch

unfoldable pub parse_uri : Memory → Uri → ℕ → Code × Uri
parse_uri m u p = uri_step u.state u p (m p)
