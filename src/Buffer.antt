-- ===== src/Buffer.antt =====
-- src/base/buffer.h and src/base/buffer.c: the buffer between a socket and a request. `start` is
-- the address of the array `data`, and the other three are the pointers of `sy_buffer_t`. An
-- operation takes the memory and returns what it makes of it, with its result in front; `none` is
-- a failed `assert`.
pub mod Words
pub mod Copy
pub mod Recv
pub mod Send
use sy_server.Base.{
  ℕ, zero, suc, ◌+◌, ◌-◌, ◌*◌, ◌/◌, ◌%◌, ◌^◌, ◌≤◌, ◌<◌, ◌≡◌, Bool, Option, none, some, List, [],
  ◌∷◌, ◌++◌, ltb, leb, ◌==◌, if◌then◌else◌, length, take, drop, not,
}
use sy_server.Memory.{Memory, write, memmove, store, bytes, Str}
use sy_server.Util.{Code, ok, again, error, min}

abbrev pub buf_size : ℕ
buf_size = 2048

pub record Buffer : Type 0 where
  pub begin : ℕ
  pub end : ℕ
  pub limit : ℕ
  pub start : ℕ

unfoldable pub init : Buffer → Buffer
init b = record b { begin = b.start; end = b.start; limit = b.start + buf_size }

unfoldable pub clear : Buffer → Buffer
unfolding init
clear b = init b

abbrev pub size : Buffer → ℕ
size b = b.end - b.begin

unfoldable pub append_u8 : Memory → Buffer → ℕ → ℕ × Memory × Buffer
append_u8 m b val =
    if leb b.limit b.end
    then (0, m, b)
    else (1, write m b.end (val % 2 ^ 8), record b { end = b.end + 1 })

-- `val & 0xff` and `val >> 8` are a remainder and a quotient.
unfoldable pub append_u16le : Memory → Buffer → ℕ → ℕ × Memory × Buffer
append_u16le m b val =
    let (len, m1, b1) = append_u8 m b (val % 2 ^ 8) in
    let (more, m2, b2) = append_u8 m1 b1 (val / 2 ^ 8 % 2 ^ 8) in (len + more, m2, b2)

unfoldable pub append_u32le : Memory → Buffer → ℕ → ℕ × Memory × Buffer
append_u32le m b val =
    let (len, m1, b1) = append_u16le m b (val % 2 ^ 16) in
    let (more, m2, b2) = append_u16le m1 b1 (val / 2 ^ 16 % 2 ^ 16) in (len + more, m2, b2)

unfoldable pub discard_parsed : Memory → Buffer → Memory × Buffer
discard_parsed m b =
    (memmove m b.start b.begin (size b), record b { begin = b.start; end = b.start + size b })

unfoldable pub full : Buffer → Bool
full b = leb b.limit b.end

abbrev pub margin : Buffer → ℕ
margin b = b.limit - b.end

-- `sy_buffer_append`, onto `des`. The second `assert` compares signed numbers, so it fails for a
-- buffer whose end has passed its limit.
unfoldable pub append : Memory → Buffer → Buffer → Option (Memory × Buffer)
append m des src =
    if des.start == src.start
    then none
    else if ltb des.limit (des.end + size src)
    then none
    else some (memmove m des.end src.begin (size src), record des { end = des.end + size src })

-- The bytes of `str` may stand anywhere in memory.
unfoldable pub append_string : Memory → Buffer → Str → Option (ℕ × Memory × Buffer)
append_string m b str =
    let appended = min (margin b) str.len in
    if ltb 0 (margin b)
    then some (appended, memmove m b.end str.addr appended, record b { end = b.end + appended })
    else none

-- `sy_buffer_print`, for a format and arguments that expand to `text`. `vsnprintf` stores what
-- fits with its final 0, and returns the length of the whole text.
unfoldable pub print : Memory → Buffer → List ℕ → Option (ℕ × Memory × Buffer)
print m b text =
    if ltb 0 (margin b)
    then some (
      length text,
      store m b.end (take (margin b - 1) text ++ 0 ∷ []),
      record b { end = b.end + length text },
    )
    else none

-- What the kernel answers to a `recv` or a `send`, call by call. `recv` hands over the bytes that
-- fit and keeps the others for the next call; no bytes are the end of the stream.
pub data Arrival : Type 0 where
  arrived : List ℕ → Arrival
  would_block : Arrival
  broken : Arrival

-- `sy_buffer_recv`: the code, the answers that are left, the memory and the buffer. A delivery
-- that does not fit fills the buffer, so that the loop ends. With no more answers `recv` blocks.
unfoldable pub recv : List Arrival → Memory → Buffer → Code × List Arrival × Memory × Buffer
unfolding full
recv [] m b = (again, [], m, b)
recv (would_block ∷ later) m b =
    if full b then (again, would_block ∷ later, m, b) else (again, later, m, b)
recv (broken ∷ later) m b = if full b then (again, broken ∷ later, m, b) else (error, later, m, b)
recv (arrived [] ∷ later) m b =
    if full b then (again, arrived [] ∷ later, m, b) else (ok, later, m, b)
recv (arrived (v ∷ vs) ∷ later) m b =
    let len = length (v ∷ vs) in
    let rest = recv later (store m b.end (v ∷ vs)) (record b { end = b.end + len }) in
    if full b
    then (again, arrived (v ∷ vs) ∷ later, m, b)
    else if leb len (margin b)
    then rest
    else (
      again,
      arrived (drop (margin b) (v ∷ vs)) ∷ later,
      store m b.end (take (margin b) (v ∷ vs)),
      record b { end = b.end + margin b },
    )

-- `accepted n`: the kernel takes `n` bytes, or all that there are.
pub data Departure : Type 0 where
  accepted : ℕ → Departure
  would_block : Departure
  broken : Departure

-- `sy_buffer_send`: the code, the bytes that the kernel took, and the buffer.
unfoldable pub send : List Departure → Memory → Buffer → Code × List ℕ × Buffer
unfolding clear
send [] m b = if size b == 0 then (ok, [], clear b) else (again, [], b)
send (would_block ∷ ds) m b = if size b == 0 then (ok, [], clear b) else (again, [], b)
send (broken ∷ ds) m b = if size b == 0 then (ok, [], clear b) else (error, [], b)
send (accepted n ∷ ds) m b =
    let len = min n (size b) in
    let (code, out, b') = send ds m (record b { begin = b.begin + len }) in
    if size b == 0 then (ok, [], clear b) else (code, bytes m b.begin len ++ out, b')

-- The bytes that wait in the buffer.
abbrev pub contents : Memory → Buffer → List ℕ
contents m b = bytes m b.begin (size b)

-- The pointers are in order and inside the array.
pub record IsBuffer (b : Buffer) : Type 0 where
  pub start_le : b.start ≤ b.begin
  pub begin_le : b.begin ≤ b.end
  pub end_le : b.end ≤ b.limit
  pub limit_is : b.limit ≡ b.start + buf_size
