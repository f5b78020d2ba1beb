-- ===== src/Tests/Answers.antt =====
-- A request for a file, from its first byte to the response.
use sy_server.Base.{
  ℕ, ◌<◌, ◌≡◌, inl, refl, some, List, [], ◌∷◌, ◌++◌, codes, true, length, pos, arith,
}
use sy_server.Memory.{Memory, Str, null_str, write, store}
use sy_server.Memory.Holds.{Holds, Holds-append, Holds-store}
use sy_server.Buffer.{Buffer, IsBuffer, clear, margin, contents}
use sy_server.Connection.{disable_in, enable_out}
use sy_server.Types.{get, Uri, HeaderField, InHandler, uri_begin}
use sy_server.Util.{ok}
use sy_server.Http.Uri.{
  parse_uri, uri_step, begin_step, slash_step, allowed_in_abs_path, entry_step, extension_step,
  count_entry,
}
use sy_server.Http.RequestLine.{
  parse_request_line, request_line_loop, request_line_step, rl_begin_step, rl_method_step,
  rl_sp_before_uri_step, rl_uri_step, is_invalid, after_uri, parse_method, text_at, line_done,
  confine, rl_sp_before_version_step, letter_step, rl_version_slash_step, rl_version_major_step,
  rl_version_dot_step, rl_version_minor_step, rl_sp_after_version_step, rl_almost_done_step,
  shift_in,
}
use sy_server.Http.RequestLine.Line.{requested}
use sy_server.Map.{put_all, empty_map, Map, head_of, at_slot, map_put, string_hash, hash_loop}
use sy_server.Response.Text.{decimal}
use sy_server.Response.Whole.{response_text}
use sy_server.Handlers.Reading.{generic, Processor, System, World}
use sy_server.Handlers.Reading.Resource.{match_location}
use sy_server.Handlers.Reading.Served.{IsFile}
use sy_server.Handlers.Reading.Section.{headers_text, AllHeaders}
use sy_server.Handlers.Reading.Names.{IsName}
use sy_server.Handlers.Reading.Incoming.{handle_request_loop}
use sy_server.Handlers.Reading.Answer.{section_at, section_end, handle_request_loop-file}
use sy_server.Handlers.Reading.NewRequest.{IsNew, path_ended, answer_text}
use sy_server.Tests.Data.{blank, other, requesting}
use sy_server.Tests.Reading.{line, headers, root, watched, sys}

-- The name of a header in static memory, and the request in the buffer.
abbrev text : List ℕ
text = line ++ headers

abbrev memory : Memory
memory = store (store blank 100 (codes "host" ++ 0 ∷ [])) 1000 text

abbrev host : Str
host = record { addr = 100; len = 4 }

abbrev no_names : Map (HeaderField × Processor)
no_names = empty_map (HeaderField.host, generic) 131 262

-- The table with the one name.
abbrev server : System
server = record sys {
  header_map =
      let s = head_of memory no_names host in
      record no_names {
        slots =
            at_slot no_names.slots s
              (record (no_names.slots s) { key = host; val = (HeaderField.host, generic) });
      };
}

names_filled :
    put_all memory
      (empty_map (HeaderField.host, generic) 131 262)
      ((host, (HeaderField.host, generic)) ∷ [])
    ≡ some server.header_map
unfolding put_all map_put string_hash hash_loop store write
names_filled = refl

abbrev start : World
start = record {
  memory = memory;
  request = requesting text;
  connection = watched;
  upstream = watched;
}

abbrev parsed_uri : Uri
parsed_uri = record {
  scheme = null_str;
  host = null_str;
  port = null_str;
  abs_path = record { addr = 1004; len = 7 };
  extension = record { addr = 1007; len = 4 };
  query = null_str;
  nddots = 0;
  nentries = 1;
  state = uri_begin;
}

abbrev path : List ℕ
path = codes "a.html"

abbrev header_list : List (List ℕ × List ℕ)
header_list = (codes "Host", codes "a.b") ∷ []

start-IsNew : IsNew start.request
start-IsNew = record {
  plain = refl;
  no_body = refl;
  no_upstream = refl;
  fine = refl;
  not_over = refl;
}

start-parsed :
    parse_request_line memory start.request
    ≡ some (ok, requested start.request get path 1 parsed_uri)
unfolding parse_request_line request_line_loop request_line_step rl_begin_step store write
    rl_method_step rl_sp_before_uri_step parse_uri uri_step begin_step parse_method text_at
    is_invalid after_uri rl_uri_step slash_step allowed_in_abs_path entry_step extension_step
    line_done confine rl_sp_before_version_step letter_step rl_version_slash_step
    rl_version_major_step rl_version_dot_step rl_version_minor_step rl_sp_after_version_step
    rl_almost_done_step shift_in count_entry
start-parsed = refl

path-IsFile : IsFile server memory parsed_uri.abs_path root
unfolding match_location
path-IsFile = record { found = refl; no_pass = refl; exists = refl; no_dir = refl }

header_list-AllHeaders : AllHeaders header_list
header_list-AllHeaders = (
  (refl, (refl, (refl, (refl, tt)))),
  omega arith,
  record {
    no_break = (refl, refl, (refl, refl, (refl, refl, tt)));
    no_leading = refl;
    no_trailing = refl;
  },
  tt,
)

headers_held : Holds memory (section_at start.request get path) (headers_text header_list)
headers_held =
    (Holds-append memory 1000 line headers
      (Holds-store text (store blank 100 (codes "host" ++ 0 ∷ [])) 1000)).1

host-IsName :
    IsName
      (path_ended memory parsed_uri.abs_path)
      (section_at start.request get path)
      (section_end start.request get path header_list)
      host
unfolding store write
host-IsName = record {
  text = codes "host";
  c_text = record {
    held = (refl, (refl, (refl, (refl, (refl, tt)))));
    no_nul = (omega arith, refl, (omega arith, refl, (omega arith, refl, (omega arith, refl, tt))));
    not_null = omega arith;
    below = omega arith;
  };
  no_colon = (omega arith, refl, (omega arith, refl, (omega arith, refl, (omega arith, refl, tt))));
  apart = inl (omega arith);
}

other-IsBuffer : IsBuffer (other 0)
other-IsBuffer = omega arith

answer_room : length (answer_text server 1 (codes "text/html") (pos 7)) < margin (other 0)
unfolding response_text decimal
answer_room = omega arith

handle_request_loop-file_example :
    (m' : Memory) × (b : Buffer) × (handle_request_loop 3 server start
      ≡ some (
        ok,
        record start {
          memory = m';
          connection = enable_out (disable_in watched);
          request = record (requested start.request get path 1 parsed_uri) {
            keep_alive = true;
            header_name = null_str;
            header_value = null_str;
            rb = clear start.request.rb;
            sb = b;
            body_done = true;
            in_handler = InHandler.handle_request_line;
            resource_fd = pos 7;
            resource_len = 10;
          };
        },
      ))
    × (contents m' b ≡ answer_text server 1 (codes "text/html") (pos 7))
handle_request_loop-file_example =
    handle_request_loop-file server start get path 1 parsed_uri root header_list (codes "text/html")
      memory (HeaderField.host, generic) ((host, (HeaderField.host, generic)) ∷ []) start-IsNew refl
      start-parsed (omega arith) refl path-IsFile (omega arith) header_list-AllHeaders headers_held
      (omega arith) names_filled (host-IsName, tt) (λ m' same. refl) other-IsBuffer refl
      (omega arith) answer_room
