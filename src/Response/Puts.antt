-- ===== src/Response/Puts.antt =====
-- Steps that write a text behind the contents of a buffer with room for it.
use sy_server.Base.{
  ℕ, ◌+◌, ◌-◌, ◌<◌, ◌≡◌, ap, ◌∙◌, none, some, List, ◌++◌, length, length-append, subst, sym,
  take_all, arith,
}
use sy_server.Memory.{Memory, store}
use sy_server.Buffer.{Buffer, IsBuffer, margin}
use sy_server.Buffer.Words.{Appends, Appends-trans}
use sy_server.Buffer.Copy.{print-Appends}
use sy_server.Buffer.Recv.{store-Appends}
use sy_server.Response.Text.{crlf, status_repr, page_tail}
use sy_server.Response.Out.{Out, and_then, abort, ◌>>◌, put, put_print, put_date}
use sy_server.Response.Build.{version_text, put_status_line, put_page, content_length_text}

-- On a valid buffer with room for `text` and one byte more, the step `a` succeeds and appends it.
abbrev pub Puts : Out → List ℕ → Type 0
Puts a text =
    (m : Memory) (b : Buffer)
    → IsBuffer b
    → length text < margin b
    → (m' : Memory) × (b' : Buffer) × (a (m, b) ≡ some (m', b'))
      × Appends m b text (length text) m' b'

pub put-Puts : (text : List ℕ) → Puts (put text) text
unfolding put
put-Puts text m b i h =
    let whole = take_all (length text) text (omega arith) in
    (
      store m b.end text,
      record b { end = b.end + length text },
      ground (arith, whole),
      store-Appends m b text i (omega arith),
    )

pub put_print-Puts : (text : List ℕ) → Puts (put_print text) text
unfolding put_print
put_print-Puts text m b i h =
    let (m', b', e, a) = print-Appends m b text i h in (m', b', rw (e, put_print), a)

pub put_date-Puts : (date : List ℕ) → Puts (put_date date) date
unfolding put_date put_print
put_date-Puts date m b i h =
    let (m', b', e, a) = put_print-Puts date m b i h in
    let whole = take_all (margin b - 1) date (omega arith) in (m', b', ground (arith, whole), a)

pub >>-Puts : (a k : Out) (t u : List ℕ) → Puts a t → Puts k u → Puts (a >> k) (t ++ u)
unfolding ◌>>◌
>>-Puts a k t u first second m b i h =
    let sum = length-append t u in
    let (m1, b1, e1, a1) = first m b i (omega arith) in
    let (m2, b2, e2, a2) = second m1 b1 a1.valid (omega (arith, a1.moved, a1.same_limit)) in
    (
      m2,
      b2,
      ap (λ s. and_then s k) e1 ∙ e2,
      subst (λ n. Appends m b (t ++ u) n m2 b2) (sym sum) (Appends-trans a1 a2),
    )

-- The same where the first step is `put`.
pub put_first : (t u : List ℕ) (k : Out) → Puts k u → Puts (put t >> k) (t ++ u)
put_first t u k = >>-Puts (put t) k t u (put-Puts t)

abbrev pub status_line : ℕ → List ℕ → List ℕ
status_line minor title = version_text minor ++ (title ++ crlf)

pub put_status_line-Puts :
    (minor status : ℕ) (title : List ℕ)
    → status_repr status ≡ some title
    → Puts (put_status_line minor status) (status_line minor title)
unfolding put_status_line
put_status_line-Puts minor status title e =
    subst
      (λ found.
        Puts
          (put (version_text minor)
            >> elim found [ none ↦ abort | some text ↦ put text >> put crlf ])
          (status_line minor title))
      (sym e)
      (put_first (version_text minor) (title ++ crlf) (put title >> put crlf)
        (put_first title crlf (put crlf) (put-Puts crlf)))

-- The header `Content-Length`, the end of the head, and the body that it counts.
abbrev pub body_text : List ℕ → List ℕ
body_text body = content_length_text (length body) ++ (crlf ++ body)

pub put_page-Puts :
    (page : List ℕ) → Puts (put_page (some (some page))) (body_text (page ++ page_tail))
unfolding put_page
put_page-Puts page =
    let counted = content_length_text (length page + length page_tail) in
    let rest = put crlf >> (put page >> put page_tail) in
    subst
      (λ n.
        Puts (put_print counted >> rest) (content_length_text n ++ (crlf ++ (page ++ page_tail))))
      (sym (length-append page page_tail))
      (>>-Puts (put_print counted) rest counted (crlf ++ (page ++ page_tail))
        (put_print-Puts counted)
        (put_first crlf (page ++ page_tail) (put page >> put page_tail)
          (put_first page page_tail (put page_tail) (put-Puts page_tail))))
