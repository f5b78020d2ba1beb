-- ===== src/Handlers/Reading/Section.antt =====
-- The headers of a request that has been received as a whole.
use sy_server.Base.{
  ℕ, zero, suc, ◌+◌, ◌≤◌, ◌<◌, ◌≡◌, ◌⊎◌, inr, refl, sym, ap, ◌∙◌, subst, ◌==◌, true, false, none,
  some, List, [], ◌∷◌, ◌++◌, length, length-append, arith,
}
use mathlib.Core.List.{map}
use sy_server.Memory.{Memory, Str, null_str}
use sy_server.Memory.Holds.{Holds, Holds-append, Holds-congr, Holds-join}
use sy_server.Buffer.{size}
use sy_server.Strings.Compare.{Without}
use sy_server.Strings.RunsOn.{RunsOn}
use sy_server.Map.{map_get, value_in}
use sy_server.Types.{InHandler, hl_begin, Request}
use sy_server.Util.{ok}
use sy_server.Http.HeaderLine.{normal, parse_header_line}
use sy_server.Http.HeaderLine.NameText.{name_char, IsHeaderName, Lowered}
use sy_server.Http.HeaderLine.Line.{header_text, IsValue, with_header, parse_header_line-text}
use sy_server.Http.HeaderLine.Blank.{parse_header_line-blank}
use sy_server.Handlers.Reading.{System, World}
use sy_server.Handlers.Reading.Headers.{
  identified, header_parsed, handle_headers_loop, handle_headers,
}

-- The text of the headers, given as names and values, with the empty line behind them.
abbrev pub headers_text : List (List ℕ × List ℕ) → List ℕ
headers_text [] = b'\r' ∷ b'\n' ∷ []
headers_text ((name, value) ∷ hs) = header_text name value ++ headers_text hs

-- Names of letters, digits and dashes, and values that begin and end with no blank.
abbrev pub AllHeaders : List (List ℕ × List ℕ) → Type 0
AllHeaders [] = Unit {0}
AllHeaders ((name, value) ∷ hs) =
    IsHeaderName name × (0 < length name) × IsValue value × AllHeaders hs

-- The memory `m'` is `m` but for the addresses from `lo` to `hi`.
abbrev pub SameOutside : ℕ → ℕ → Memory → Memory → Type 0
SameOutside lo hi m m' = (x : ℕ) → (x < lo) ⊎ (hi ≤ x) → m' x ≡ m x

-- The table has no name that is followed by a colon, whatever is written from `lo` to `hi`.
abbrev pub Unheard : System → Memory → ℕ → ℕ → Type 0
Unheard sys m lo hi =
    (m' : Memory) (key : Str) (text : List ℕ)
    → SameOutside lo hi m m'
    → RunsOn m' key text b':'
    → map_get m' sys.header_map key ≡ some none

-- The request when its headers have been read up to the address `p`.
abbrev pub behind_headers : Request → ℕ → Request
behind_headers r p = record r {
  header_name = null_str;
  header_value = null_str;
  rb = record r.rb { begin = p };
  state = hl_begin;
  in_handler = InHandler.handle_body;
}

normal-not_nul : (ch : ℕ) → name_char ch ≡ true → (0 < normal ch) × ((normal ch == 0) ≡ false)
unfolding normal
normal-not_nul ch h = ground arith

normal-Without : (name : List ℕ) → IsHeaderName name → Without 0 (map normal name)
normal-Without [] is = tt
normal-Without (ch ∷ name) (c, is) =
    let (pos, ne) = normal-not_nul ch c in (pos, ne, normal-Without name is)

length-map : (f : ℕ → ℕ) (vs : List ℕ) → length (map f vs) ≡ length vs
length-map f [] = refl
length-map f (v ∷ vs) = ap suc (length-map f vs)

length-header_text :
    (name value : List ℕ) → length (header_text name value) ≡ length name + length value + 4
length-header_text name value =
    let e = length-append name (b':' ∷ b' ' ∷ value ++ b'\r' ∷ b'\n' ∷ []) in
    let f = length-append value (b'\r' ∷ b'\n' ∷ []) in omega arith

loop_at_blank :
    (n : ℕ) (sys : System) (w : World)
    → w.request.state ≡ hl_begin
    → Holds w.memory w.request.rb.begin (headers_text [])
    → 2 ≤ size w.request.rb
    → handle_headers_loop (suc n) sys w
      ≡ some (ok, record w { request = behind_headers w.request (w.request.rb.begin + 2) })
unfolding handle_headers_loop
loop_at_blank n sys w st hold le =
    ap (header_parsed (handle_headers_loop n sys) sys w)
      (parse_header_line-blank w.memory w.request st hold le)

-- A name that the table has not is passed over.
loop_at_header :
    (name value : List ℕ) (n : ℕ) (sys : System) (w : World) (m' : Memory)
    → parse_header_line w.memory w.request
      ≡ some (ok, m', with_header w.request (length name) (length value))
    → map_get m' sys.header_map (with_header w.request (length name) (length value)).header_name
      ≡ some none
    → handle_headers_loop (suc n) sys w
      ≡ handle_headers_loop n sys
          (record w { memory = m'; request = with_header w.request (length name) (length value) })
unfolding handle_headers_loop
loop_at_header name value n sys w m' parsed unheard =
    let r = with_header w.request (length name) (length value) in
    let next = handle_headers_loop n sys in
    ap (header_parsed next sys w) parsed
    ∙ ap
        (λ found.
          identified next sys (record w { memory = m'; request = r })
            (value_in sys.header_map found))
        unheard

name-RunsOn :
    (name value : List ℕ) (m m' : Memory) (r : Request)
    → IsHeaderName name
    → 0 < r.rb.begin
    → Holds m r.rb.begin (header_text name value)
    → Lowered m r.rb.begin name m'
    → RunsOn m' (with_header r (length name) (length value)).header_name (map normal name) b':'
name-RunsOn name value m m' r is pos hold low =
    let p = r.rb.begin in
    let (_, (colon, _)) = Holds-append m p name (b':' ∷ b' ' ∷ value ++ b'\r' ∷ b'\n' ∷ []) hold in
    let at : m' (p + length name) ≡ b':' = low.same (p + length name) (inr (omega arith)) ∙ colon in
    record {
      held =
          Holds-join m' p (map normal name) (b':' ∷ []) low.text_is
            (subst (λ k. Holds m' (p + k) (b':' ∷ [])) (sym (length-map normal name)) (at, tt));
      no_nul = normal-Without name is;
      not_null = pos;
      not_end = omega arith;
    }

-- The headers are read, and none is known.
pub handle_headers_loop-text :
    (hs : List (List ℕ × List ℕ)) (n : ℕ) (sys : System) (w : World)
    → AllHeaders hs
    → 0 < w.request.rb.begin
    → w.request.state ≡ hl_begin
    → Holds w.memory w.request.rb.begin (headers_text hs)
    → length (headers_text hs) ≤ size w.request.rb
    → Unheard sys w.memory w.request.rb.begin (w.request.rb.begin + length (headers_text hs))
    → length hs < n
    → (m' : Memory) × (handle_headers_loop n sys w
        ≡ some (
          ok,
          record w {
            memory = m';
            request = behind_headers w.request (w.request.rb.begin + length (headers_text hs));
          },
        ))
      × SameOutside w.request.rb.begin (w.request.rb.begin + length (headers_text hs)) w.memory m'
handle_headers_loop-text hs zero sys w all pos st hold le unheard lt = absurd (omega arith)
handle_headers_loop-text [] (suc n) sys w all pos st hold le unheard lt =
    (w.memory, loop_at_blank n sys w st hold le, λ x h. refl)
handle_headers_loop-text ((name, value) ∷ hs) (suc n) sys w (is, some_name, is_value, all) pos st
      hold le unheard lt =
    let r = w.request in
    let p = r.rb.begin in
    let text = header_text name value in
    let sum = length-header_text name value in
    let both = length-append text (headers_text hs) in
    let (h0, h1) = Holds-append w.memory p text (headers_text hs) hold in
    let (m1, parsed, low) =
      parse_header_line-text name value w.memory r is some_name is_value pos st h0 (omega arith) in
    let v = record w { memory = m1; request = with_header r (length name) (length value) } in
    let at : p + length text ≡ v.request.rb.begin = omega arith in
    let kept =
      Holds-congr w.memory m1 (p + length text) (headers_text hs)
        (λ x ge. low.same x (inr (omega arith))) h1 in
    let run_on = name-RunsOn name value w.memory m1 r is pos h0 low in
    let same1 : SameOutside p (p + length (headers_text ((name, value) ∷ hs))) w.memory m1 =
      λ x h. low.same x (ground arith) in
    let first =
      loop_at_header name value n sys w m1 parsed
        (unheard m1 v.request.header_name (map normal name) same1 run_on) in
    let (m2, run, same2) =
      handle_headers_loop-text hs n sys v all (omega arith) refl
        (subst (λ a. Holds m1 a (headers_text hs)) at kept) (omega arith)
        (λ m' key t same on. unheard m' key t (λ x h. same x (ground arith) ∙ same1 x h) on)
        (omega arith) in
    let e : v.request.rb.begin + length (headers_text hs) ≡ p + length (text ++ headers_text hs) =
      omega arith in
    (
      m2,
      first ∙ run ∙ ap (λ q. some (ok, record w { memory = m2; request = behind_headers r q })) e,
      λ x h. same2 x (ground arith) ∙ same1 x h,
    )

hs_length : (hs : List (List ℕ × List ℕ)) → length hs ≤ length (headers_text hs)
hs_length [] = omega arith
hs_length ((name, value) ∷ hs) =
    let more = hs_length hs in
    let sum = length-header_text name value in
    let both = length-append (header_text name value) (headers_text hs) in omega arith

-- `sy_request_handle_headers`, that is, on headers which have been received as a whole and whose
-- names the table has not.
pub handle_headers-text :
    (hs : List (List ℕ × List ℕ)) (sys : System) (w : World)
    → AllHeaders hs
    → 0 < w.request.rb.begin
    → w.request.state ≡ hl_begin
    → Holds w.memory w.request.rb.begin (headers_text hs)
    → length (headers_text hs) ≤ size w.request.rb
    → Unheard sys w.memory w.request.rb.begin (w.request.rb.begin + length (headers_text hs))
    → (m' : Memory) × (handle_headers sys w
        ≡ some (
          ok,
          record w {
            memory = m';
            request = behind_headers w.request (w.request.rb.begin + length (headers_text hs));
          },
        ))
      × SameOutside w.request.rb.begin (w.request.rb.begin + length (headers_text hs)) w.memory m'
unfolding handle_headers
handle_headers-text hs sys w all lo st hold le unheard =
    handle_headers_loop-text hs (suc (size w.request.rb)) sys w all lo st hold le unheard
      (let some_left = hs_length hs in omega arith)
