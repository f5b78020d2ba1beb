-- ===== src/Response/Out.antt =====
-- Writing to a buffer, step after step. A step takes the memory and the buffer, and `none` is a
-- failed `assert`.
use sy_server.Base.{
  ℕ, ◌+◌, Option, none, some, List, [], ◌∷◌, ◌++◌, ltb, length, take, if◌then◌else◌,
}
use sy_server.Memory.{Memory, store}
use sy_server.Buffer.{Buffer, margin, print}
use sy_server.Util.{min}

abbrev pub Out : Type 0
Out = Memory × Buffer → Option (Memory × Buffer)

abbrev pub and_then : Option (Memory × Buffer) → Out → Option (Memory × Buffer)
and_then none k = none
and_then (some s) k = k s

infixr 5 ◌>>◌
unfoldable pub ◌>>◌ : Out → Out → Out
◌>>◌ a k s = and_then (a s) k

abbrev pub abort : Out
abort s = none

-- `sy_buffer_append_cstring`, and `sy_buffer_append_string` of a string with this text.
unfoldable pub put : List ℕ → Out
unfolding min
put text (m, b) =
    let appended = min (margin b) (length text) in
    if ltb 0 (margin b)
    then some (store m b.end (take appended text), record b { end = b.end + appended })
    else none

-- `sy_buffer_print` of a format that expands to this text.
unfoldable pub put_print : List ℕ → Out
unfolding print
put_print text (m, b) = elim (print m b text) [ none ↦ none | some (len, m', b') ↦ some (m', b') ]

-- `strftime` of a date, `date` being what it expands to in full. It stores nothing where that does
-- not fit with its final 0.
unfoldable pub put_date : List ℕ → Out
put_date date (m, b) =
    if ltb (length date) (margin b)
    then some (store m b.end (date ++ 0 ∷ []), record b { end = b.end + length date })
    else some (m, b)
