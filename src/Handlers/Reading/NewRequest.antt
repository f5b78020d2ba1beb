-- ===== src/Handlers/Reading/NewRequest.antt =====
-- A new request, and the round of `sy_handle_request` that answers it once its headers are read.
use sy_server.Base.{
  ℕ, ◌+◌, ◌<◌, ◌≡◌, refl, ap, ◌∙◌, false, ℤ, minus_one, some, List, [], ◌++◌, length, codes, arith,
}
use sy_server.Memory.{Memory, Str, write, bytes}
use sy_server.Buffer.{Buffer, IsBuffer, size, margin, contents}
use sy_server.Types.{TransferEncoding, Request}
use sy_server.Util.{ok}
use sy_server.Response.Text.{status_repr, find}
use sy_server.Response.Build.{or_html, has_no_body}
use sy_server.Response.Whole.{response_text, response_build-Appends}
use sy_server.Handlers.{request_init}
use sy_server.Handlers.Reading.{System, World}
use sy_server.Handlers.Reading.Body.{handle_body}
use sy_server.Handlers.Reading.Section.{SameOutside}
use sy_server.Handlers.Reading.Served.{answered, handle_body-none}

-- What a new request has that its line does not change.
pub record IsNew (r : Request) : Type 0 where
  pub plain : r.t_encoding ≡ TransferEncoding.identity
  pub no_body : r.content_length ≡ minus_one
  pub no_upstream : r.uc ≡ 0
  pub fine : r.status ≡ 200
  pub not_over : r.body_done ≡ false

request_init-IsNew : (r : Request) (c : ℕ) → IsNew (request_init r c)
unfolding request_init
request_init-IsNew r c = record {
  plain = refl;
  no_body = refl;
  no_upstream = refl;
  fine = refl;
  not_over = refl;
}

abbrev pub title_ok : List ℕ
title_ok = codes "200 OK"

status_repr-ok : status_repr 200 ≡ some title_ok
unfolding status_repr find
status_repr-ok = refl

has_no_body-ok : has_no_body 200 ≡ false
unfolding has_no_body
has_no_body-ok = refl

empty_contents : (m : Memory) (b : Buffer) → b.begin ≡ b.end → contents m b ≡ []
empty_contents m b e = let z : size b ≡ 0 = omega arith in ap (bytes m b.begin) z

-- The text of the answer.
abbrev pub answer_text : System → ℕ → List ℕ → ℤ → List ℕ
answer_text sys v type fd = response_text sys.date v title_ok type (sys.file_size fd)

-- The memory when the path has become a C string.
abbrev pub path_ended : Memory → Str → Memory
path_ended m path = write m (path.addr + path.len) 0

-- The body round.
pub body_round :
    (sys : System) (w : World) (type : List ℕ)
    → IsNew w.request
    → ((m' : Memory)
        → SameOutside w.request.sb.end w.request.sb.limit w.memory m'
        → or_html (sys.mime m' w.request.uri.extension) ≡ type)
    → IsBuffer w.request.sb
    → w.request.sb.begin ≡ w.request.sb.end
    → length (response_text sys.date w.request.version.minor title_ok type w.request.resource_len)
      < margin w.request.sb
    → (m' : Memory) × (b : Buffer) × (handle_body sys w
        ≡ some (ok, answered w m' (record w.request { sb = b })))
      × (contents m' b
          ≡ response_text sys.date w.request.version.minor title_ok type w.request.resource_len)
body_round sys w type new typed valid empty room =
    let r = w.request in
    let (m', b, built, app) =
      response_build-Appends sys.date sys.mime w.memory r title_ok type
        (ap status_repr new.fine ∙ status_repr-ok) (ap has_no_body new.fine ∙ has_no_body-ok) typed
        valid room in
    (
      m',
      b,
      handle_body-none sys w m' (record r { sb = b }) new.plain new.no_body new.no_upstream built,
      app.added
          ∙ ap (λ t. t ++ response_text sys.date r.version.minor title_ok type r.resource_len)
              (empty_contents w.memory r.sb empty),
    )
