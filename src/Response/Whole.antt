-- ===== src/Response/Whole.antt =====
-- What the response with a resource is.
use sy_server.Base.{
  ℕ, ◌≤◌, ◌<◌, ◌≡◌, ◌⊎◌, sym, ap, ◌∙◌, subst, Option, some, List, ◌++◌, codes, false, length,
  length-append, arith, if◌then◌else◌,
}
use sy_server.Memory.{Memory, Str}
use sy_server.Buffer.{Buffer, IsBuffer, margin}
use sy_server.Buffer.Words.{Appends, Appends-trans}
use sy_server.Types.{Request}
use sy_server.Response.Text.{crlf, status_repr}
use sy_server.Response.Out.{Out, and_then, ◌>>◌, put, put_print, put_date}
use sy_server.Response.Build.{
  server_text, content_length_text, put_status_line, put_head, or_html, put_content, has_no_body,
  built, built_closed, response_build,
}
use sy_server.Response.Puts.{
  Puts, put-Puts, put_print-Puts, put_first, put_date-Puts, >>-Puts, status_line,
  put_status_line-Puts,
}

abbrev pub head_text : List ℕ → ℕ → List ℕ → List ℕ
head_text date minor title = status_line minor title ++ (date ++ server_text)

put_head-Puts :
    (date : List ℕ) (minor status : ℕ) (title : List ℕ)
    → status_repr status ≡ some title
    → Puts (put_head date minor status) (head_text date minor title)
unfolding put_head
put_head-Puts date minor status title e =
    >>-Puts (put_status_line minor status) (put_date date >> put server_text)
      (status_line minor title) (date ++ server_text) (put_status_line-Puts minor status title e)
      (>>-Puts (put_date date) (put server_text) date server_text (put_date-Puts date)
        (put-Puts server_text))

abbrev type_text : List ℕ
type_text = codes "Content-Type: "

abbrev pub content_text : List ℕ → ℕ → List ℕ
content_text type len =
    codes "Content-Type: " ++ (type ++ (crlf ++ (content_length_text len ++ crlf)))

abbrev typed : List ℕ → ℕ → Out
typed type len =
    put type_text >> put type >> put crlf >> put_print (content_length_text len) >> put crlf

typed-Puts : (type : List ℕ) (len : ℕ) → Puts (typed type len) (content_text type len)
typed-Puts type len =
    let counted = content_length_text len in
    let end = put_print counted >> put crlf in
    put_first type_text (type ++ (crlf ++ (counted ++ crlf))) (put type >> put crlf >> end) (
      put_first type (crlf ++ (counted ++ crlf)) (put crlf >> end) (
        put_first crlf (counted ++ crlf) end (
          >>-Puts (put_print counted) (put crlf) counted crlf (put_print-Puts counted)
            (put-Puts crlf))))

-- The head of a response with a resource of `len` bytes; the resource follows from its file.
unfoldable pub response_text : List ℕ → ℕ → List ℕ → List ℕ → ℕ → List ℕ
response_text date minor title type len = head_text date minor title ++ content_text type len

-- Where the send buffer of a request has room for the response of its status, with one byte left
-- over, `response_build` succeeds: it appends the status line, the date, the server, the type and
-- the length of the resource and the end of the head, and changes nothing else of the request. The
-- status is not 304 or 100, and `type` is what the type of the extension is, whatever is written
-- to the room of the buffer.
pub response_build-Appends :
    (date : List ℕ) (mime : Memory → Str → Option (List ℕ)) (m : Memory) (r : Request)
    (title type : List ℕ)
    → status_repr r.status ≡ some title
    → has_no_body r.status ≡ false
    → ((m1 : Memory)
        → ((x : ℕ) → (x < r.sb.end) ⊎ (r.sb.limit ≤ x) → m1 x ≡ m x)
        → or_html (mime m1 r.uri.extension) ≡ type)
    → IsBuffer r.sb
    → length (response_text date r.version.minor title type r.resource_len) < margin r.sb
    → (m' : Memory) × (b : Buffer) × (response_build date mime m r ≡ some (m', record r { sb = b }))
      × Appends m r.sb
          (response_text date r.version.minor title type r.resource_len)
          (length (response_text date r.version.minor title type r.resource_len))
          m'
          b
unfolding response_build put_content response_text ◌>>◌
response_build-Appends date mime m r title type known body type_is i h =
    let head = head_text date r.version.minor title in
    let content = content_text type r.resource_len in
    let sum = length-append head content in
    let (m1, b1, e1, a1) =
      put_head-Puts date r.version.minor r.status title known m r.sb i (omega arith) in
    let (m2, b2, e2, a2) =
      typed-Puts type r.resource_len m1 b1 a1.valid (omega (arith, a1.moved, a1.same_limit)) in
    let rest = put_content mime r.uri.extension r.resource_len in
    let chain : (put_head date r.version.minor r.status >> rest) (m, r.sb) ≡ some (m2, b2) =
      ap (λ s. and_then s rest) e1
      ∙ ap (λ t. typed t r.resource_len (m1, b1)) (type_is m1 a1.untouched)
      ∙ e2 in
    let bodiless =
      built_closed r ((put_head date r.version.minor r.status >> put crlf) (m, r.sb)) in
    (
      m2,
      b2,
      ap
            (λ x.
              if x
              then bodiless
              else built r ((put_head date r.version.minor r.status >> rest) (m, r.sb)))
            body
          ∙ ap (built r) chain,
      subst (λ n. Appends m r.sb (head ++ content) n m2 b2) (sym sum) (Appends-trans a1 a2),
    )
