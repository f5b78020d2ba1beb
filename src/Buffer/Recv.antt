-- ===== src/Buffer/Recv.antt =====
-- The loop of `sy_buffer_recv` over a socket, against the stream of bytes that its answers carry.
use sy_server.Base.{
  ℕ, ◌+◌, ◌-◌, ◌≤◌, ◌≡◌, refl, sym, ap, ◌∙◌, subst, List, [], ◌∷◌, ◌++◌, Bool-cases, inl, inr,
  append-nil, append_assoc, arith, length, length-append, length-take, take, drop, take-append-drop,
  take-append_all, take-append_less, take_all, true, false, leb, if◌then◌else◌,
}
use sy_server.Memory.{Memory, store, bytes}
use sy_server.Memory.Bytes.{store_other, bytes-store_end}
use sy_server.Buffer.{Buffer, IsBuffer, Arrival, arrived, recv, full, size, margin, contents}
use sy_server.Buffer.Words.{Appends, Appends-trans}
use sy_server.Util.{Code, ok, again, error}

-- The bytes that a list of answers carries.
abbrev pub carried : List Arrival → List ℕ
carried [] = []
carried (arrived [] ∷ later) = carried later
carried (arrived (v ∷ vs) ∷ later) = (v ∷ vs) ++ carried later
carried (Arrival.would_block ∷ later) = carried later
carried (Arrival.broken ∷ later) = carried later

-- The bytes that come before the first answer without any.
abbrev pub readable : List Arrival → List ℕ
readable [] = []
readable (arrived [] ∷ later) = []
readable (arrived (v ∷ vs) ∷ later) = (v ∷ vs) ++ readable later
readable (Arrival.would_block ∷ later) = []
readable (Arrival.broken ∷ later) = []

-- The code for that answer.
abbrev pub stop_code : List Arrival → Code
stop_code [] = again
stop_code (arrived [] ∷ later) = ok
stop_code (arrived (v ∷ vs) ∷ later) = stop_code later
stop_code (Arrival.would_block ∷ later) = again
stop_code (Arrival.broken ∷ later) = error

-- What a call on `b` reads, and what it returns.
abbrev pub now_read : Buffer → List Arrival → List ℕ
now_read b answers = take (margin b) (readable answers)

abbrev pub recv_code : Buffer → List Arrival → Code
recv_code b answers =
    if leb (margin b) (length (readable answers)) then again else stop_code answers

pub store-Appends :
    (m : Memory) (b : Buffer) (vs : List ℕ)
    → IsBuffer b
    → b.end + length vs ≤ b.limit
    → Appends m b vs (length vs) (store m b.end vs) (record b { end = b.end + length vs })
store-Appends m b vs i h =
    let e : b.end ≡ b.begin + size b = omega (arith, i.begin_le) in
    let f : b.end + length vs - b.begin ≡ size b + length vs = omega (arith, i.begin_le) in
    record {
      same_start = refl;
      same_begin = refl;
      same_limit = refl;
      moved = refl;
      added = rw f (
          subst (λ x. bytes (store m x vs) b.begin (size b + length vs) ≡ contents m b ++ vs)
            (sym e) (bytes-store_end m b.begin (size b) vs));
      untouched = λ x le. store_other vs m b.end x (ground arith);
      valid = record {
        start_le = i.start_le;
        begin_le = omega (arith, i.begin_le);
        end_le = h;
        limit_is = i.limit_is;
      };
    }

Appends-none : (m : Memory) (b : Buffer) → IsBuffer b → Appends m b [] 0 m b
Appends-none m b i = record {
  same_start = refl;
  same_begin = refl;
  same_limit = refl;
  moved = omega arith;
  added = sym (append-nil _);
  untouched = λ x h. refl;
  valid = i;
}

-- What a call of `recv` on `b` does, with the result `r`: it appends the bytes `vs`, leaves the
-- others to come, and returns the code.
pub record Received (m : Memory) (b : Buffer) (answers : List Arrival) (vs : List ℕ) (code : Code)
    (r : Code × List Arrival × Memory × Buffer) : Type 0 where
  pub appended : Appends m b vs (length vs) r.2 r.3
  pub nothing_lost : carried answers ≡ vs ++ carried r.1
  pub code_is : r.0 ≡ code

Received-none :
    (m : Memory) (b : Buffer) (answers left : List Arrival) (code : Code)
    → IsBuffer b
    → carried answers ≡ carried left
    → Received m b answers [] code (code, left, m, b)
Received-none m b answers left code i e = record {
  appended = Appends-none m b i;
  nothing_lost = e;
  code_is = refl;
}

-- A full buffer reads nothing.
Received-full :
    (m : Memory) (b : Buffer) (answers : List Arrival)
    → IsBuffer b
    → leb b.limit b.end ≡ true
    → Received m b answers (now_read b answers) (recv_code b answers) (again, answers, m, b)
Received-full m b answers i e =
    let f : margin b ≡ 0 = ground arith in
    let g : leb 0 (length (readable answers)) ≡ true = ground arith in
    rw f (rw g (Received-none m b answers answers again i refl))

-- An answer without bytes ends the loop.
Received-stop :
    (m : Memory) (b : Buffer) (answers left : List Arrival) (code : Code)
    → IsBuffer b
    → leb b.limit b.end ≡ false
    → carried answers ≡ carried left
    → Received m b answers
        (take (margin b) [])
        (if leb (margin b) 0 then again else code)
        (code, left, m, b)
Received-stop m b answers left code i e f =
    let g : leb (margin b) 0 ≡ false = ground arith in
    let none_read : take {A = ℕ} (margin b) [] ≡ [] =
      take_all {A = ℕ} (margin b) [] (omega arith) in
    rw (g, none_read) (Received-none m b answers left code i f)

-- A delivery that fits is stored, and the loop goes on.
Received-cons :
    (m : Memory) (b : Buffer) (v : ℕ) (vs : List ℕ) (later : List Arrival)
    (r : Code × List Arrival × Memory × Buffer)
    → IsBuffer b
    → leb (length (v ∷ vs)) (margin b) ≡ true
    → (let m1 = store m b.end (v ∷ vs) in
        let b1 = record b { end = b.end + length (v ∷ vs) } in
        IsBuffer b1 → Received m1 b1 later (now_read b1 later) (recv_code b1 later) r)
    → Received m b
        (arrived (v ∷ vs) ∷ later)
        (now_read b (arrived (v ∷ vs) ∷ later))
        (recv_code b (arrived (v ∷ vs) ∷ later))
        r
Received-cons m b v vs later r i fits rest =
    let b1 = record b { end = b.end + length (v ∷ vs) } in
    let first = store-Appends m b (v ∷ vs) i (ground (arith, i.end_le)) in
    let room : margin b1 ≡ margin b - length (v ∷ vs) = omega arith in
    let more = rest first.valid in
    let e : now_read b (arrived (v ∷ vs) ∷ later) ≡ (v ∷ vs) ++ now_read b1 later =
      rw room (take-append_all (margin b) (v ∷ vs) (readable later) (ground arith)) in
    rw e (record {
      appended = rw length-append (Appends-trans first more.appended);
      nothing_lost =
          ap (◌++◌ (v ∷ vs)) more.nothing_lost
          ∙ sym (append_assoc (v ∷ vs) (now_read b1 later) (carried r.1));
      code_is = more.code_is ∙ ground (arith, room, length-append (v ∷ vs) (readable later));
    })

carried-cut :
    (n : ℕ) (v : ℕ) (vs : List ℕ) (later : List Arrival)
    → carried (arrived (v ∷ vs) ∷ later)
      ≡ take n (v ∷ vs) ++ carried (arrived (drop n (v ∷ vs)) ∷ later)
carried-cut n v vs later =
    ap (λ xs. xs ++ carried later) (sym (take-append-drop n (v ∷ vs)))
    ∙ append_assoc (take n (v ∷ vs)) (drop n (v ∷ vs)) (carried later)
    ∙ ap (◌++◌ (take n (v ∷ vs))) (sym (carried-arrived (drop n (v ∷ vs)) later))
  where
    carried-arrived :
        (xs : List ℕ) (later : List Arrival) → carried (arrived xs ∷ later) ≡ xs ++ carried later
    carried-arrived [] later = refl
    carried-arrived (x ∷ xs) later = refl

-- A delivery that does not fit fills the buffer.
Received-cut :
    (m : Memory) (b : Buffer) (v : ℕ) (vs : List ℕ) (later : List Arrival)
    → IsBuffer b
    → leb (length (v ∷ vs)) (margin b) ≡ false
    → Received m b
        (arrived (v ∷ vs) ∷ later)
        (now_read b (arrived (v ∷ vs) ∷ later))
        (recv_code b (arrived (v ∷ vs) ∷ later))
        (
          again,
          arrived (drop (margin b) (v ∷ vs)) ∷ later,
          store m b.end (take (margin b) (v ∷ vs)),
          record b { end = b.end + margin b },
        )
Received-cut m b v vs later i cut =
    let part = take (margin b) (v ∷ vs) in
    let k : length part ≡ margin b = length-take (margin b) (v ∷ vs) (ground arith) in
    let e : now_read b (arrived (v ∷ vs) ∷ later) ≡ part =
      take-append_less (margin b) (v ∷ vs) (readable later) (ground arith) in
    let first = store-Appends m b part i (omega (arith, k, i.end_le)) in
    rw e (record {
      appended =
          subst
            (λ n.
              Appends m b part (length part) (store m b.end part) (record b { end = b.end + n }))
            k first;
      nothing_lost = carried-cut (margin b) v vs later;
      code_is = ground (arith, length-append (v ∷ vs) (readable later));
    })

-- On a valid buffer a call of `recv` appends to the contents as many of the readable bytes of the
-- stream as there is room for, in order, and keeps the buffer valid. All other bytes are still to
-- come. It returns `again` if they fill the buffer or `recv` would block behind them, `ok` at the
-- end of the stream and `error` at an error.
pub recv-Received :
    (answers : List Arrival) (m : Memory) (b : Buffer)
    → IsBuffer b
    → Received m b answers (now_read b answers) (recv_code b answers) (recv answers m b)
unfolding recv full
recv-Received [] m b i = elim (Bool-cases (leb b.limit b.end)) [
  | inl e ↦ Received-full m b [] i e
  | inr e ↦ Received-stop m b [] [] again i e refl
]
recv-Received (Arrival.would_block ∷ later) m b i = elim (Bool-cases (leb b.limit b.end)) [
  | inl e ↦ rw e (Received-full m b _ i e)
  | inr e ↦ rw e (Received-stop m b _ later again i e refl)
]
recv-Received (Arrival.broken ∷ later) m b i = elim (Bool-cases (leb b.limit b.end)) [
  | inl e ↦ rw e (Received-full m b _ i e)
  | inr e ↦ rw e (Received-stop m b _ later error i e refl)
]
recv-Received (arrived [] ∷ later) m b i = elim (Bool-cases (leb b.limit b.end)) [
  | inl e ↦ rw e (Received-full m b _ i e)
  | inr e ↦ rw e (Received-stop m b _ later ok i e refl)
]
recv-Received (arrived (v ∷ vs) ∷ later) m b i = elim (Bool-cases (leb b.limit b.end)) [
  | inl e ↦ rw e (Received-full m b _ i e)
  | inr e ↦ elim (Bool-cases (leb (length (v ∷ vs)) (margin b))) [
    | inl fits ↦
        rw (e, fits)
          (Received-cons m b v vs later _ i fits (
            recv-Received later (store m b.end (v ∷ vs))
              (record b { end = b.end + length (v ∷ vs) })))
    | inr cut ↦ rw (e, cut) (Received-cut m b v vs later i cut)
  ]
]
