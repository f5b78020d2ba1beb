-- ===== src/Http/HeaderLine/Blank.antt =====
-- The empty line behind the headers.
use sy_server.Base.{suc, ◌+◌, ◌-◌, ◌≤◌, ◌≡◌, ap, ◌∙◌, some, [], ◌∷◌, arith}
use sy_server.Memory.{Memory}
use sy_server.Memory.Holds.{Holds}
use sy_server.Buffer.{size}
use sy_server.Types.{hl_begin, hl_almost_done, Request}
use sy_server.Util.{empty_line}
use sy_server.Http.HeaderLine.{
  reset, hl_begin_step, hl_almost_done_step, header_line_step, header_line_loop, parse_header_line,
}
use sy_server.Http.HeaderLine.NameText.{step-next, step-done}

-- The request behind an empty line.
abbrev pub behind_blank : Request → Request
behind_blank r = record (reset r) { rb = record r.rb { begin = r.rb.begin + 2 }; state = hl_begin }

-- A line break in place of a header line ends the headers.
pub parse_header_line-blank :
    (m : Memory) (r : Request)
    → r.state ≡ hl_begin
    → Holds m r.rb.begin (b'\r' ∷ b'\n' ∷ [])
    → 2 ≤ size r.rb
    → parse_header_line m r ≡ some (empty_line, m, behind_blank r)
unfolding parse_header_line header_line_step hl_begin_step hl_almost_done_step
parse_header_line-blank m r st (cr, (lf, _)) le =
    let p = r.rb.begin in
    let i = size r.rb - 2 in
    let r1 = record (reset r) { state = hl_almost_done } in
    let e : size r.rb ≡ suc (suc i) = omega arith in
    let f : suc p + 1 ≡ p + 2 = omega arith in
    let s1 = step-next (suc i) m r p m r1 (ap (λ s. header_line_step s m r p (m p)) st ∙ rw cr) in
    let s2 = step-done i m r1 (suc p) r1 (rw lf) in
    ap (λ n. header_line_loop n m r p) e ∙ s1 ∙ s2 ∙ rw f
