-- ===== src/Buffer/Copy.antt =====
-- The operations of the buffer that copy whole runs of bytes.
use sy_server.Base.{
  length-append, ℕ, ◌+◌, ◌-◌, ◌≤◌, ◌<◌, ◌≡◌, ◌≢◌, refl, sym, ◌∙◌, subst, List, [], ◌∷◌, ◌++◌, some,
  arith, length, take_all, inr,
}
use sy_server.Memory.{Memory, memmove, store, bytes, Str}
use sy_server.Memory.Bytes.{
  store_other, memmove_other, bytes-memmove_to, bytes-memmove_end, bytes-write_other,
  bytes-store_end, store_concat,
}
use sy_server.Buffer.{
  Buffer, IsBuffer, discard_parsed, append, append_string, print, size, margin, contents,
}
use sy_server.Buffer.Words.{Appends}
use sy_server.Util.{min}

-- To discard what is parsed moves the unread bytes to the front of the array: the contents stay,
-- the pointers stay in order, and the bytes that were parsed are room again.
pub discard_parsed_keeps :
    (m : Memory) (b : Buffer)
    → IsBuffer b
    → (contents (discard_parsed m b).0 (discard_parsed m b).1 ≡ contents m b)
      × IsBuffer (discard_parsed m b).1
      × (margin (discard_parsed m b).1 ≡ margin b + (b.begin - b.start))
unfolding discard_parsed
discard_parsed_keeps m b i =
    let e : b.start + size b - b.start ≡ size b = omega arith in
    (
      rw e (bytes-memmove_to m b.start b.begin (size b)),
      record {
        start_le = omega arith;
        begin_le = omega arith;
        end_le = omega (arith, i.start_le, i.begin_le, i.end_le);
        limit_is = i.limit_is;
      },
      omega (arith, i.start_le, i.begin_le, i.end_le),
    )

-- A copy of `k` bytes to the end of a valid buffer with room for them.
memmove-Appends :
    (m : Memory) (b : Buffer) (from k : ℕ)
    → IsBuffer b
    → b.end + k ≤ b.limit
    → Appends m b (bytes m from k) k (memmove m b.end from k) (record b { end = b.end + k })
memmove-Appends m b from k i h =
    let e : b.end ≡ b.begin + size b = omega (arith, i.begin_le) in
    let f : b.end + k - b.begin ≡ size b + k = omega (arith, i.begin_le) in
    record {
      same_start = refl;
      same_begin = refl;
      same_limit = refl;
      moved = refl;
      added = rw f (
          subst
            (λ x. bytes (memmove m x from k) b.begin (size b + k) ≡ contents m b ++ bytes m from k)
            (sym e) (bytes-memmove_end m b.begin (size b) from k));
      untouched = λ x le. memmove_other m b.end from k x (ground arith);
      valid = record {
        start_le = i.start_le;
        begin_le = omega (arith, i.begin_le);
        end_le = h;
        limit_is = i.limit_is;
      };
    }

-- Appending one buffer to another with room for it succeeds, and the contents of the second stand
-- behind those of the first.
pub append-Appends :
    (m : Memory) (des src : Buffer)
    → IsBuffer des
    → des.start ≢ src.start
    → size src ≤ margin des
    → (m' : Memory) × (b : Buffer) × (append m des src ≡ some (m', b))
      × Appends m des (contents m src) (size src) m' b
unfolding append
append-Appends m des src i ne h = (
  memmove m des.end src.begin (size src),
  record des { end = des.end + size src },
  ground arith,
  memmove-Appends m des src.begin (size src) i (omega (arith, i.end_le)),
)

-- A string is appended as far as there is room, whatever its length: a buffer that is not full
-- takes the first bytes of it, up to its limit, and the result is their number.
pub append_string-Appends :
    (m : Memory) (b : Buffer) (s : Str)
    → IsBuffer b
    → b.end < b.limit
    → (m' : Memory) × (b' : Buffer) × (append_string m b s ≡ some (min (margin b) s.len, m', b'))
      × Appends m b (bytes m s.addr (min (margin b) s.len)) (min (margin b) s.len) m' b'
unfolding append_string min
append_string-Appends m b s i h = (
  memmove m b.end s.addr (min (margin b) s.len),
  record b { end = b.end + min (margin b) s.len },
  ground arith,
  memmove-Appends m b s.addr (min (margin b) s.len) i (ground arith),
)

-- What a store of bytes and of a final 0 behind the contents leaves.
store_end-bytes :
    (m : Memory) (b : Buffer) (vs : List ℕ)
    → b.begin ≤ b.end
    → bytes (store m b.end (vs ++ 0 ∷ [])) b.begin (size b + length vs) ≡ contents m b ++ vs
store_end-bytes m b vs h =
    let e : b.end ≡ b.begin + size b = omega arith in
    rw (store_concat vs m b.end 0) (
      bytes-write_other _ _ 0 b.begin _ (inr (omega arith))
      ∙ subst (λ x. bytes (store m x vs) b.begin (size b + length vs) ≡ contents m b ++ vs) (sym e)
          (bytes-store_end m b.begin (size b) vs))

-- A text that is shorter than the room of a valid buffer is printed whole behind the contents, and
-- the result is its length.
pub print-Appends :
    (m : Memory) (b : Buffer) (text : List ℕ)
    → IsBuffer b
    → length text < margin b
    → (m' : Memory) × (b' : Buffer) × (print m b text ≡ some (length text, m', b'))
      × Appends m b text (length text) m' b'
unfolding print
print-Appends m b text i h =
    let whole = take_all (margin b - 1) text (omega arith) in
    let f : b.end + length text - b.begin ≡ size b + length text = omega (arith, i.begin_le) in
    (
      store m b.end (text ++ 0 ∷ []),
      record b { end = b.end + length text },
      ground (arith, whole),
      record {
        same_start = refl;
        same_begin = refl;
        same_limit = refl;
        moved = refl;
        added = rw f (store_end-bytes m b text i.begin_le);
        untouched = λ x le.
            store_other (text ++ 0 ∷ []) m b.end x (ground (arith, length-append text (0 ∷ [])));
        valid = record {
          start_le = i.start_le;
          begin_le = omega (arith, i.begin_le);
          end_le = omega arith;
          limit_is = i.limit_is;
        };
      },
    )
