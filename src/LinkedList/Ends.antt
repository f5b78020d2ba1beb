-- ===== src/LinkedList/Ends.antt =====
-- The list as a sequence: the first node is deleted.
use sy_server.Base.{
  ℕ, ◌-◌, ◌<◌, ◌≡◌, ◌≢◌, refl, sym, ap, ◌∙◌, subst, ◌==◌, ◌||◌, false, Option, none, some, List, [],
  ◌∷◌, ne→==, if◌then◌else◌, arith,
}
use sy_server.Memory.{write}
use sy_server.Memory.Bytes.{write_other, write_same}
use sy_server.Util.{Code, ok}
use sy_server.Pool.{Words, Pool, pool_free}
use sy_server.Pool.Free.{given_back, pool_free-given_back}
use sy_server.LinkedList.{Store, Linked, list_head, back_of, list_delete}
use sy_server.LinkedList.Segment.{last, Seg-next, Seg-prev, NoneIs-NotInner, NoneIs-last}
use sy_server.LinkedList.Insert.{IsList}

-- The nodes without `x`, which stood between `b` and `f`, with `t` for the node whose `prev` changes.
abbrev without : Store → ℕ → ℕ → ℕ → ℕ → Store
without st x b f t = record {
  next = write (write st.next b f) x st.pool.cur;
  prev = write st.prev t b;
  pool = given_back st.pool x;
}

list_delete-without :
    (st : Store) (list : Linked) (x b : ℕ)
    → 0 < list.size
    → 0 < x
    → x ≢ list.dummy
    → st.prev x ≡ b
    → x ≢ b
    → list_delete st list x
      ≡ some (
        ok,
        without st x b (st.next x) (back_of list (st.next x)),
        record list { size = list.size - 1 },
      )
unfolding list_delete
list_delete-without st list x b full lo ne at ne' =
    let list' = record list { size = list.size - 1 } in
    let deleted : ℕ → ℕ → Pool × Words → Option (Code × Store × Linked) = λ q e s.
      some
        (ok, record { next = s.1; prev = write st.prev (back_of list e) q; pool = s.0 }, list') in
    let words : ℕ → Words = λ q. write st.next q (st.next x) in
    let checked : (list.size == 0 || x == list.dummy) ≡ false = ground arith in
    ap
      (λ t.
        if t
        then none
        else deleted (st.prev x) (words (st.prev x) x) (pool_free st.pool x (words (st.prev x))))
      checked
    ∙ ap (λ q. deleted q (words q x) (pool_free st.pool x (words q))) at
    ∙ ap (deleted b (words b x)) (pool_free-given_back st.pool x (words b) lo)
    ∙ ap (λ e. deleted b e (given_back st.pool x, write (words b) x st.pool.cur))
        (write_other st.next b (st.next x) x (omega arith))

without-IsList :
    (st : Store) (list : Linked) (x : ℕ) (xs : List ℕ)
    → IsList st list (x ∷ xs)
    → IsList
        (without st x list.dummy (st.next x) (back_of list (st.next x)))
        (record list { size = list.size - 1 })
        xs
without-IsList st list x [] is =
    let d = list.dummy in
    let ((ne, _), _) = is.distinct in
    let at_back : back_of list (st.next x) ≡ d = ap (back_of list) is.ended in
    subst (λ t. IsList (without st x d (st.next x) t) (record list { size = list.size - 1 }) [])
      (sym at_back)
      (record {
        linked = tt;
        ended =
            write_other (write st.next d (st.next x)) x st.pool.cur d (omega arith)
            ∙ write_same st.next d (st.next x)
            ∙ is.ended;
        tail_is = write_same st.prev d d;
        distinct = (tt, tt);
        counted = omega (arith, is.counted);
        some_dummy = is.some_dummy;
      })
without-IsList st list x (y ∷ xs) is =
    let d = list.dummy in
    let ((ne, away_d), (away_x, (away_y, all))) = is.distinct in
    let ne_d = away_d.0 in
    let (_, _, _, (following, lo, _, seg)) = is.linked in
    let at_back : back_of list (st.next x) ≡ y =
      ap (back_of list) following ∙ ap (λ b. if b then d else y) (ne→== y 0 (omega arith)) in
    let next1 = write st.next d (st.next x) in
    let next2 = write next1 x st.pool.cur in
    let kept = Seg-prev xs next2 st.prev y y d away_y (
      Seg-next xs next1 st.prev y x st.pool.cur (NoneIs-NotInner x y xs away_x)
        (Seg-next xs st.next st.prev y d (st.next x) (NoneIs-NotInner d y xs away_d) seg)) in
    let ne_x = NoneIs-last x y xs away_x in
    let ne_l = NoneIs-last d y xs away_d in
    subst
      (λ t. IsList (without st x d (st.next x) t) (record list { size = list.size - 1 }) (y ∷ xs))
      (sym at_back)
      (record {
        linked = (
          write_other next1 x st.pool.cur d (omega arith)
              ∙ write_same st.next d (st.next x)
              ∙ following,
          lo,
          write_same st.prev y d,
          kept,
        );
        ended =
            write_other next1 x st.pool.cur (last y xs) (omega arith)
            ∙ write_other st.next d (st.next x) (last y xs) (omega arith)
            ∙ is.ended;
        tail_is = write_other st.prev y d d (omega arith) ∙ is.tail_is;
        distinct = (away_d, (away_y, all));
        counted = omega (arith, is.counted);
        some_dummy = is.some_dummy;
      })

-- `sy_list_delete` of the first node of a list, which is what a queue does to pop, leaves the list of
-- the other nodes, and the node is the first free one of the pool.
pub list_delete-IsList :
    (st : Store) (list : Linked) (x : ℕ) (xs : List ℕ)
    → IsList st list (x ∷ xs)
    → (st' : Store) × (list_delete st list (list_head st list)
        ≡ some (ok, st', record list { size = list.size - 1 }))
      × IsList st' (record list { size = list.size - 1 }) xs
      × (st'.pool.cur ≡ x)
list_delete-IsList st list x xs is =
    let (head, lo, back, _) = is.linked in
    let ((ne, _), _) = is.distinct in
    (
      without st x list.dummy (st.next x) (back_of list (st.next x)),
      ap (list_delete st list) head
          ∙ list_delete-without st list x list.dummy (omega (arith, is.counted)) lo ne back ne,
      without-IsList st list x xs is,
      refl,
    )
