-- ===== src/Http/HeaderLine.antt =====
-- `parse_header_line` of src/httpparse.c. The machine has one function for each state; `p` is the
-- address of the byte `ch`, which the states of the name rewrite in place.
pub mod Outcome
pub mod NameText
pub mod ValueText
pub mod Line
pub mod Blank
use sy_server.Base.{ℕ, zero, suc, ◌+◌, ◌-◌, ◌||◌, Option, none, some, ◌==◌, if◌then◌else◌}
use sy_server.Memory.{Memory, write, null_str}
use sy_server.Buffer.{size}
use sy_server.Types.{
  LineState, hl_begin, hl_ignore, hl_name, hl_colon, hl_sp_before_value, hl_value,
  hl_sp_after_value, hl_almost_done, Request,
}
use sy_server.Util.{Code, ok, again, empty_line}
use sy_server.Http.Step.{Step, next, goto_done, returned, aborted}
use sy_server.Http.Uri.{is_upper, is_lower, is_digit, starting, ending}

abbrev enter : Request → LineState → Step
enter r s = next (record r { state = s })

-- The capitals become small letters, and `-` becomes `_`.
unfoldable pub normal : ℕ → ℕ
normal ch = if is_upper ch then ch - b'A' + b'a' else if ch == b'-' then b'_' else ch

abbrev pub reset : Request → Request
reset r = record r { header_name = null_str; header_value = null_str }

abbrev pub begin_name : Request → ℕ → Request
begin_name r p = record r { header_name = starting r.header_name p; state = hl_name }

unfoldable pub hl_begin_step : Memory → Request → ℕ → ℕ → Memory × Step
unfolding normal
hl_begin_step m r p ch =
    if is_upper ch || ch == b'-'
    then (write m p (normal ch), next (begin_name (reset r) p))
    else if is_digit ch || is_lower ch
    then (m, next (begin_name (reset r) p))
    else if ch == b'\r'
    then (m, enter (reset r) hl_almost_done)
    else if ch == b'\n'
    then (m, goto_done (reset r))
    else (m, enter (reset r) hl_ignore)

unfoldable pub hl_ignore_step : Memory → Request → ℕ → Memory × Step
hl_ignore_step m r ch = if ch == b'\n' then (m, enter r hl_begin) else (m, next r)

unfoldable pub hl_name_step : Memory → Request → ℕ → ℕ → Memory × Step
unfolding normal
hl_name_step m r p ch =
    if is_upper ch || ch == b'-'
    then (write m p (normal ch), next r)
    else if is_digit ch || is_lower ch
    then (m, next r)
    else if ch == b':'
    then (m, next (record r { header_name = ending r.header_name p; state = hl_colon }))
    else if ch == b'\r'
    then (m, enter r hl_almost_done)
    else (m, enter r hl_ignore)

-- HL_S_SP_BEFORE_VALUE and HL_S_COLON.
unfoldable pub hl_colon_step : Memory → Request → ℕ → ℕ → Memory × Step
hl_colon_step m r p ch =
    if ch == b' '
    then (m, enter r hl_sp_before_value)
    else if ch == b'\r'
    then (m, enter r hl_almost_done)
    else if ch == b'\n'
    then (m, goto_done r)
    else (m, next (record r { header_value = starting r.header_value p; state = hl_value }))

abbrev end_value : Request → ℕ → Request
end_value r p = record r { header_value = ending r.header_value p }

unfoldable pub hl_value_step : Memory → Request → ℕ → ℕ → Memory × Step
hl_value_step m r p ch =
    if ch == b' '
    then (m, enter (end_value r p) hl_sp_after_value)
    else if ch == b'\r'
    then (m, enter (end_value r p) hl_almost_done)
    else if ch == b'\n'
    then (m, goto_done (end_value r p))
    else (m, next r)

unfoldable pub hl_sp_after_value_step : Memory → Request → ℕ → Memory × Step
hl_sp_after_value_step m r ch =
    if ch == b' '
    then (m, next r)
    else if ch == b'\r'
    then (m, enter r hl_almost_done)
    else if ch == b'\n'
    then (m, goto_done r)
    else (m, enter r hl_value)

unfoldable pub hl_almost_done_step : Memory → Request → ℕ → Memory × Step
hl_almost_done_step m r ch = if ch == b'\n' then (m, goto_done r) else (m, enter r hl_ignore)

unfoldable pub header_line_step : LineState → Memory → Request → ℕ → ℕ → Memory × Step
header_line_step hl_begin m r p ch = hl_begin_step m r p ch
header_line_step hl_ignore m r p ch = hl_ignore_step m r ch
header_line_step hl_name m r p ch = hl_name_step m r p ch
header_line_step hl_sp_before_value m r p ch = hl_colon_step m r p ch
header_line_step hl_colon m r p ch = hl_colon_step m r p ch
header_line_step hl_value m r p ch = hl_value_step m r p ch
header_line_step hl_sp_after_value m r p ch = hl_sp_after_value_step m r ch
header_line_step hl_almost_done m r p ch = hl_almost_done_step m r ch
header_line_step _ m r p ch = (m, aborted)

-- The label `header_done`, with `p` at the line feed.
abbrev pub header_done : Request → ℕ → Request
header_done r p = record r { rb = record r.rb { begin = p + 1 }; state = hl_begin }

abbrev pub header_code : Request → Code
header_code r = if r.header_name.addr == 0 then empty_line else ok

-- The loop, with `n` bytes left from `p` to the end of the buffer. No state returns from inside.
unfoldable pub header_line_loop : ℕ → Memory → Request → ℕ → Option (Code × Memory × Request)
header_line_loop zero m r p = some (again, m, record r { rb = record r.rb { begin = r.rb.end } })
header_line_loop (suc n) m r p =
    let (m', step) = header_line_step r.state m r p (m p) in
    elim step [
      | next r' ↦ header_line_loop n m' r' (suc p)
      | goto_done r' ↦ some (header_code r', m', header_done r' p)
      | returned err r' ↦ some (err, m', r')
      | aborted ↦ none
    ]

unfoldable pub parse_header_line : Memory → Request → Option (Code × Memory × Request)
unfolding header_line_loop header_line_step
parse_header_line m r = header_line_loop (size r.rb) m r r.rb.begin
