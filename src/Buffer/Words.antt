-- ===== src/Buffer/Words.antt =====
-- The little-endian words that the buffer takes, and what an append leaves of the buffer.
use sy_server.Base.{
  ℕ, ◌+◌, ◌-◌, ◌*◌, ◌/◌, ◌%◌, ◌^◌, ◌≤◌, ◌<◌, ◌≡◌, refl, sym, ap, ◌⊎◌, ◌∙◌, subst, List, [], ◌∷◌,
  ◌++◌, append_assoc, arith,
}
use sy_server.Memory.{Memory, write, bytes}
use sy_server.Memory.Bytes.{write_other, bytes-write_end}
use sy_server.Buffer.{Buffer, IsBuffer, append_u8, append_u16le, append_u32le, size, contents}

-- The value that a run of bytes stands for, the lowest byte first.
abbrev pub little_endian : List ℕ → ℕ
little_endian [] = 0
little_endian (x ∷ xs) = x + 2 ^ 8 * little_endian xs

append_u8_room :
    (m : Memory) (b : Buffer) (v : ℕ)
    → b.end < b.limit
    → append_u8 m b v ≡ (1, write m b.end (v % 2 ^ 8), record b { end = b.end + 1 })
unfolding append_u8
append_u8_room m b v h = ground arith

-- With room for the byte it stands behind the contents.
append_u8-contents :
    (m : Memory) (b : Buffer) (v : ℕ)
    → IsBuffer b
    → b.end < b.limit
    → contents (write m b.end v) (record b { end = b.end + 1 }) ≡ contents m b ++ v ∷ []
append_u8-contents m b v i h =
    let e : b.end ≡ b.begin + size b = omega (arith, i.begin_le) in
    let f : b.end + 1 - b.begin ≡ size b + 1 = omega (arith, i.begin_le) in
    rw f (
      subst (λ x. bytes (write m x v) b.begin (size b + 1) ≡ contents m b ++ v ∷ []) (sym e)
        (bytes-write_end m b.begin (size b) v))

-- The result `(n, m', b')` of an append to `(m, b)` that adds the bytes `vs`.
pub record Appends (m : Memory) (b : Buffer) (vs : List ℕ) (n : ℕ) (m' : Memory) (b' : Buffer)
    : Type 0 where
  pub same_start : b'.start ≡ b.start
  pub same_begin : b'.begin ≡ b.begin
  pub same_limit : b'.limit ≡ b.limit
  pub moved : b'.end ≡ b.end + n
  pub added : contents m' b' ≡ contents m b ++ vs
  pub untouched : (x : ℕ) → (x < b.end) ⊎ (b.limit ≤ x) → m' x ≡ m x
  pub valid : IsBuffer b'

module _ {m m1 m2 : Memory} {b b1 b2 : Buffer} {us vs : List ℕ} {n k : ℕ}
    (first : Appends m b us n m1 b1) (second : Appends m1 b1 vs k m2 b2) where
  pub Appends-trans : Appends m b (us ++ vs) (n + k) m2 b2
  Appends-trans = record {
    same_start = second.same_start ∙ first.same_start;
    same_begin = second.same_begin ∙ first.same_begin;
    same_limit = second.same_limit ∙ first.same_limit;
    moved = omega (arith, first.moved, second.moved);
    added = second.added ∙ ap (λ xs. xs ++ vs) first.added ∙ append_assoc (contents m b) us vs;
    untouched = λ x h.
        second.untouched x (ground (arith, first.moved, first.same_limit)) ∙ first.untouched x h;
    valid = second.valid;
  }

pub append_u8-Appends :
    (m : Memory) (b : Buffer) (v : ℕ)
    → IsBuffer b
    → b.end < b.limit
    → Appends m b (v % 2 ^ 8 ∷ []) 1 (append_u8 m b v).1 (append_u8 m b v).2
append_u8-Appends m b v i h = rw (append_u8_room m b v h) (record {
  same_start = refl;
  same_begin = refl;
  same_limit = refl;
  moved = refl;
  added = append_u8-contents m b (v % 2 ^ 8) i h;
  untouched = λ x k. write_other m b.end _ x (ground arith);
  valid = record {
    start_le = i.start_le;
    begin_le = omega (arith, i.begin_le);
    end_le = omega arith;
    limit_is = i.limit_is;
  };
})

Appends-congr :
    {m m' : Memory} {b b' : Buffer} {us vs : List ℕ} {n : ℕ}
    → us ≡ vs
    → Appends m b us n m' b'
    → Appends m b vs n m' b'
Appends-congr {m} {m'} {b} {b'} {n = n} e a = subst (λ xs. Appends m b xs n m' b') e a

byte_of_byte : (v : ℕ) → v % 2 ^ 8 % 2 ^ 8 ≡ v % 2 ^ 8
byte_of_byte v = omega arith

pub append_u16le-Appends :
    (m : Memory) (b : Buffer) (v : ℕ)
    → IsBuffer b
    → b.end + 2 ≤ b.limit
    → Appends m b
        (v % 2 ^ 8 ∷ v / 2 ^ 8 % 2 ^ 8 ∷ [])
        2
        (append_u16le m b v).1
        (append_u16le m b v).2
unfolding append_u16le
append_u16le-Appends m b v i h =
    let first = append_u8-Appends m b (v % 2 ^ 8) i (omega arith) in
    let second =
      append_u8-Appends _ _ (v / 2 ^ 8 % 2 ^ 8) first.valid
        (omega (arith, first.moved, first.same_limit)) in
    Appends-congr (cc (byte_of_byte v, byte_of_byte (v / 2 ^ 8))) (Appends-trans first second)

-- The four bytes of a word, the lowest first.
abbrev pub word_bytes : ℕ → List ℕ
word_bytes v = v % 2 ^ 8 ∷ v / 2 ^ 8 % 2 ^ 8 ∷ v / 2 ^ 16 % 2 ^ 8 ∷ v / 2 ^ 24 % 2 ^ 8 ∷ []

low_half :
    (v : ℕ) → (v % 2 ^ 16 % 2 ^ 8 ≡ v % 2 ^ 8) × (v % 2 ^ 16 / 2 ^ 8 % 2 ^ 8 ≡ v / 2 ^ 8 % 2 ^ 8)
low_half v = omega arith

high_half :
    (v : ℕ)
    → (v / 2 ^ 16 % 2 ^ 16 % 2 ^ 8 ≡ v / 2 ^ 16 % 2 ^ 8)
      × (v / 2 ^ 16 % 2 ^ 16 / 2 ^ 8 % 2 ^ 8 ≡ v / 2 ^ 24 % 2 ^ 8)
high_half v = omega arith

word_bytes-little_endian : (v : ℕ) → v < 2 ^ 32 → little_endian (word_bytes v) ≡ v
word_bytes-little_endian v h = omega arith

-- A 32-bit word put into a valid buffer with room for four bytes stands behind the contents, the
-- lowest byte first, and those bytes read as the word; the buffer stays valid.
pub append_u32le_roundtrip :
    (m : Memory) (b : Buffer) (v : ℕ)
    → IsBuffer b
    → b.end + 4 ≤ b.limit
    → v < 2 ^ 32
    → Appends m b (word_bytes v) 4 (append_u32le m b v).1 (append_u32le m b v).2
      × (little_endian (word_bytes v) ≡ v)
unfolding append_u32le
append_u32le_roundtrip m b v i h lt =
    let first = append_u16le-Appends m b (v % 2 ^ 16) i (omega arith) in
    let second =
      append_u16le-Appends _ _ (v / 2 ^ 16 % 2 ^ 16) first.valid
        (omega (arith, first.moved, first.same_limit)) in
    let (a0, a1) = low_half v in
    let (a2, a3) = high_half v in
    (Appends-congr (cc) (Appends-trans first second), word_bytes-little_endian v lt)

-- The bytes that an append of one byte has added: one where there is room, and none in a full
-- buffer, which keeps its memory.
pub append_u8_full :
    (m : Memory) (b : Buffer) (v : ℕ) → b.limit ≤ b.end → append_u8 m b v ≡ (0, m, b)
unfolding append_u8
append_u8_full m b v h = ground arith

-- On a buffer whose end is not behind its limit, the result of the append of a word is the number
-- of bytes that it stored, at most four, and the room that is left where there is less.
pub append_u32le_count :
    (m : Memory) (b : Buffer) (v : ℕ)
    → b.end ≤ b.limit
    → ((append_u32le m b v).0 ≤ 4)
      × ((append_u32le m b v).2.end ≡ b.end + (append_u32le m b v).0)
      × ((append_u32le m b v).2.end ≤ b.limit)
      × (((append_u32le m b v).0 ≡ 4) ⊎ ((append_u32le m b v).2.end ≡ b.limit))
unfolding append_u32le append_u16le append_u8
append_u32le_count m b v h = ground arith
