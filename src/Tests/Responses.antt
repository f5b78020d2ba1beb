-- ===== src/Tests/Responses.antt =====
-- The responses to a request of a resource that is not there, and of one that is.
use sy_server.Base.{ℕ, ◌<◌, ◌≡◌, false, true, some, Option, List, codes, length, refl, arith}
use sy_server.Memory.{Memory}
use sy_server.Buffer.{Buffer, IsBuffer, margin}
use sy_server.Buffer.Words.{Appends}
use sy_server.Connection.{Connection, front}
use sy_server.Response.Text.{find, page, page_tail, status_repr, err_page, decimal}
use sy_server.Response.Build.{response_build_err}
use sy_server.Response.Errors.{error_text, failed, response_build_err-Appends}
use sy_server.Response.Build.{has_no_body, or_html, response_build}
use sy_server.Response.Whole.{response_text, response_build-Appends}
use sy_server.Memory.{Str}
use sy_server.Tests.Data.{blank, other, fresh}

abbrev waiting : Connection
waiting = record {
  fd = 5;
  side = front;
  watch_in = true;
  watch_out = false;
  r = 1;
  active_time = 0;
  heap_idx = 1;
}

abbrev title : List ℕ
title = codes "404 Not Found"

abbrev date : List ℕ
date = codes "Date: Thu, 01 Jan 1970 00:00:00 GMT\r\n"

known : status_repr 404 ≡ some title
unfolding status_repr find
known = refl

paged : err_page 404 ≡ some (some (page title))
unfolding err_page find
paged = refl

other-IsBuffer : IsBuffer (other 0)
other-IsBuffer = omega arith

room : length (error_text date 0 title (page title)) < margin (other 0)
unfolding error_text page page_tail decimal
room = omega arith

response_build_err-Appends_example :
    (m' : Memory) × (b : Buffer) × (response_build_err date blank (fresh 0) waiting 404
      ≡ some (m', failed (fresh 0) 404 b, record waiting { watch_in = false; watch_out = true }))
    × Appends blank
        (other 0)
        (error_text date 0 title (page title))
        (length (error_text date 0 title (page title)))
        m'
        b
response_build_err-Appends_example =
    response_build_err-Appends date blank (fresh 0) waiting 404 title (page title) known paged
      other-IsBuffer room

abbrev kind : List ℕ
kind = codes "text/css"

abbrev mime : Memory → Str → Option (List ℕ)
mime m ext = some kind

fine : status_repr 200 ≡ some (codes "200 OK")
unfolding status_repr find
fine = refl

has_body : has_no_body 200 ≡ false
unfolding has_no_body
has_body = refl

typed_so : (m : Memory) → or_html (mime m (fresh 0).uri.extension) ≡ kind
typed_so m = refl

resource_room : length (response_text date 0 (codes "200 OK") kind 0) < margin (other 0)
unfolding response_text decimal
resource_room = omega arith

response_build-Appends_example :
    (m' : Memory) × (b : Buffer) × (response_build date mime blank (fresh 0)
      ≡ some (m', record (fresh 0) { sb = b }))
    × Appends blank
        (other 0)
        (response_text date 0 (codes "200 OK") kind 0)
        (length (response_text date 0 (codes "200 OK") kind 0))
        m'
        b
response_build-Appends_example =
    response_build-Appends date mime blank (fresh 0) (codes "200 OK") kind fine has_body
      (λ m1 same. typed_so m1) other-IsBuffer resource_room
