-- ===== src/Handlers/Reading/Answer.antt =====
-- The three rounds of `sy_handle_request` for a file.
use sy_server.Base.{
  ◌%◌, ◌^◌, subst, sym, ℕ, ◌+◌, ◌≤◌, ◌<◌, ◌≡◌, ◌⊎◌, refl, ap, ◌∙◌, ◌==◌, true, some, List, length,
  arith,
}
use sy_server.Memory.{Memory, Str, null_str}
use sy_server.Memory.Holds.{Holds, Holds-write}
use sy_server.Buffer.{Buffer, IsBuffer, clear, init, margin, contents}
use sy_server.Connection.{disable_in, enable_out}
use sy_server.Types.{HeaderField, Method, InHandler, Uri, Request}
use sy_server.Util.{ok}
use sy_server.Http.RequestLine.{parse_request_line}
use sy_server.Http.RequestLine.Line.{text_length, requested}
use sy_server.Response.Build.{or_html}
use sy_server.Response.Whole.{response_text}
use sy_server.Handlers.Reading.{Processor, Location, System, World}
use sy_server.Handlers.Reading.Incoming.{at_headers, call_in_handler, handle_request_loop}
use sy_server.Handlers.Reading.Section.{
  headers_text, AllHeaders, behind_headers, handle_headers-text,
}
use sy_server.Handlers.Reading.Names.{IsName, put_all-Unheard}
use sy_server.Map.{put_all, empty_map}
use sy_server.Map.Absent.{AllKeys}
use sy_server.Handlers.Reading.Served.{
  opened, IsFile, with_file, answered, handle_request_line-file, round_on, round_last,
}
use sy_server.Handlers.Reading.NewRequest.{IsNew, title_ok, answer_text, path_ended, body_round}

-- Where the headers behind a request line begin and end.
abbrev pub section_at : Request → Method → List ℕ → ℕ
section_at r meth path = r.rb.begin + text_length meth path

abbrev pub section_end : Request → Method → List ℕ → List (List ℕ × List ℕ) → ℕ
section_end r meth path hs = section_at r meth path + length (headers_text hs)

-- The type of the extension is `type`, whatever is written to two stretches of the memory.
abbrev pub HasType : System → Memory → Str → List ℕ → ℕ → ℕ → ℕ → ℕ → Type 0
HasType sys m extension type lo hi lo' hi' =
    (m' : Memory)
    → ((x : ℕ) → (x < lo) ⊎ (hi ≤ x) → (x < lo') ⊎ (hi' ≤ x) → m' x ≡ m x)
    → or_html (sys.mime m' extension) ≡ type

-- The answer to a request for a file, whose `resource_len` is `len`, in the three rounds of the loop.
abbrev pub Answered : System → World → Method → List ℕ → ℕ → Uri → List ℕ → ℕ → Type 0
Answered sys w meth path v u type len =
    (m' : Memory) × (b : Buffer) × (handle_request_loop 3 sys w
      ≡ some (
        ok,
        record w {
          memory = m';
          connection = enable_out (disable_in w.connection);
          request = record (requested w.request meth path v u) {
            keep_alive = v == 1;
            header_name = null_str;
            header_value = null_str;
            rb = clear w.request.rb;
            sb = b;
            body_done = true;
            in_handler = InHandler.handle_request_line;
            resource_fd = opened sys w.memory u.abs_path;
            resource_len = len;
          };
        },
      ))
    × (contents m' b ≡ response_text sys.date v title_ok type len)

-- The answer, with the word of the `int` that the size of the file is stored into.
handle_request_loop-word :
    (sys : System) (w : World) (meth : Method) (path : List ℕ) (v : ℕ) (u : Uri) (loc : Location)
    (hs : List (List ℕ × List ℕ)) (type : List ℕ) (m0 : Memory) (unset : HeaderField × Processor)
    (rows : List (Str × (HeaderField × Processor)))
    → IsNew w.request
    → w.request.in_handler ≡ InHandler.handle_request_line
    → parse_request_line w.memory w.request ≡ some (ok, requested w.request meth path v u)
    → v ≤ 2
    → u.host.addr ≡ 0
    → IsFile sys w.memory u.abs_path loc
    → u.abs_path.addr + u.abs_path.len < section_at w.request meth path
    → AllHeaders hs
    → Holds w.memory (section_at w.request meth path) (headers_text hs)
    → section_end w.request meth path hs ≤ w.request.rb.end
    → put_all m0 (empty_map unset 131 262) rows ≡ some sys.header_map
    → AllKeys
        (IsName
          (path_ended w.memory u.abs_path)
          (section_at w.request meth path)
          (section_end w.request meth path hs))
        rows
    → HasType sys
        (path_ended w.memory u.abs_path)
        u.extension
        type
        (section_at w.request meth path)
        (section_end w.request meth path hs)
        w.request.sb.end
        w.request.sb.limit
    → IsBuffer w.request.sb
    → w.request.sb.begin ≡ w.request.sb.end
    → length (
        response_text sys.date v title_ok type
          (sys.file_size (opened sys w.memory u.abs_path) % 2 ^ 32))
      < margin w.request.sb
    → Answered sys w meth path v u type (sys.file_size (opened sys w.memory u.abs_path) % 2 ^ 32)
unfolding clear init
handle_request_loop-word sys w meth path v u loc hs type m0 unset rows new at parsed le host file
      before all hold room filled names typed valid empty fits =
    let r = w.request in
    let q = section_at r meth path in
    let after = section_end r meth path hs in
    let r1 = requested r meth path v u in
    let w1 = with_file sys (at_headers (record w { request = r1 })) in
    let first = handle_request_line-file sys w r1 v loc parsed refl le host file in
    let kept =
      Holds-write w.memory (u.abs_path.addr + u.abs_path.len) 0 q (headers_text hs) before hold in
    let unheard = put_all-Unheard sys m0 w1.memory q after unset rows filled names in
    let (m2, second, same2) =
      handle_headers-text hs sys w1 all (omega arith) refl kept (omega arith) unheard in
    let w2 : World = record w1 { memory = m2; request = behind_headers w1.request after } in
    let (m3, b, third, text) =
      body_round sys w2 type
        (record {
          plain = new.plain;
          no_body = new.no_body;
          no_upstream = new.no_upstream;
          fine = new.fine;
          not_over = new.not_over;
        })
        (λ m' same. typed m' (λ x away apart. same x apart ∙ same2 x away)) valid empty fits in
    (
      m3,
      b,
      round_on 2 sys w w1 (ap (λ h. call_in_handler h sys w) at ∙ first) new.not_over
          ∙ round_on 1 sys w1 w2 second new.not_over
          ∙ round_last 0 sys w2 (answered w2 m3 (record w2.request { sb = b })) third refl,
      text,
    )

-- A new request for a file that has been received as a whole is answered in the three rounds of the
-- loop, with the code `ok`. Its line, of version 1.0 to 1.2, parses with the URI `u`, which has no
-- host; the path of `u` belongs to a location that serves files and opens as a file that is no
-- directory, of fewer than 2 ^ 31 bytes; its headers, of names and values in their
-- simple form, follow in the buffer; the table of names has been filled with C strings that have no
-- colon and stand outside the headers; the resource is of the type `type` as long as only the headers
-- and the send buffer are written to; the send buffer is empty and has room for the text. Then it holds the status line, the date, the
-- server, the type and the length of the file, the file waits as the resource, the receive buffer is
-- clear, and the connection waits for the socket to be writable and no more for it to be readable.
pub handle_request_loop-file :
    (sys : System) (w : World) (meth : Method) (path : List ℕ) (v : ℕ) (u : Uri) (loc : Location)
    (hs : List (List ℕ × List ℕ)) (type : List ℕ) (m0 : Memory) (unset : HeaderField × Processor)
    (rows : List (Str × (HeaderField × Processor)))
    → IsNew w.request
    → w.request.in_handler ≡ InHandler.handle_request_line
    → parse_request_line w.memory w.request ≡ some (ok, requested w.request meth path v u)
    → v ≤ 2
    → u.host.addr ≡ 0
    → IsFile sys w.memory u.abs_path loc
    → u.abs_path.addr + u.abs_path.len < section_at w.request meth path
    → AllHeaders hs
    → Holds w.memory (section_at w.request meth path) (headers_text hs)
    → section_end w.request meth path hs ≤ w.request.rb.end
    → put_all m0 (empty_map unset 131 262) rows ≡ some sys.header_map
    → AllKeys
        (IsName
          (path_ended w.memory u.abs_path)
          (section_at w.request meth path)
          (section_end w.request meth path hs))
        rows
    → HasType sys
        (path_ended w.memory u.abs_path)
        u.extension
        type
        (section_at w.request meth path)
        (section_end w.request meth path hs)
        w.request.sb.end
        w.request.sb.limit
    → IsBuffer w.request.sb
    → w.request.sb.begin ≡ w.request.sb.end
    → sys.file_size (opened sys w.memory u.abs_path) < 2 ^ 31
    → length (answer_text sys v type (opened sys w.memory u.abs_path)) < margin w.request.sb
    → (m' : Memory) × (b : Buffer) × (handle_request_loop 3 sys w
        ≡ some (
          ok,
          record w {
            memory = m';
            connection = enable_out (disable_in w.connection);
            request = record (requested w.request meth path v u) {
              keep_alive = v == 1;
              header_name = null_str;
              header_value = null_str;
              rb = clear w.request.rb;
              sb = b;
              body_done = true;
              in_handler = InHandler.handle_request_line;
              resource_fd = opened sys w.memory u.abs_path;
              resource_len = sys.file_size (opened sys w.memory u.abs_path);
            };
          },
        ))
      × (contents m' b ≡ answer_text sys v type (opened sys w.memory u.abs_path))
handle_request_loop-file sys w meth path v u loc hs type m0 unset rows new at parsed le host file
      before all hold room filled names typed valid empty small fits =
    let fd = opened sys w.memory u.abs_path in
    let e : sys.file_size fd % 2 ^ 32 ≡ sys.file_size fd = omega arith in
    subst (Answered sys w meth path v u type) e (
      handle_request_loop-word sys w meth path v u loc hs type m0 unset rows new at parsed le host
        file before all hold room filled names typed valid empty
        (subst (λ n. length (response_text sys.date v title_ok type n) < margin w.request.sb)
          (sym e) fits))
