-- ===== src/LinkedList/Insert.antt =====
-- The list as a sequence: a node is put behind the last one.
use sy_server.Base.{
  ℕ, ◌+◌, ◌<◌, ◌≡◌, sym, ap, ◌∙◌, Option, none, some, List, [], ◌∷◌, ◌++◌, length, length-append,
  ne→==, if◌then◌else◌, arith,
}
use sy_server.Memory.{write}
use sy_server.Memory.Bytes.{write_other, write_same}
use sy_server.Util.{Code, ok}
use sy_server.Pool.{Words}
use sy_server.Pool.Chain.{NoneIs}
use sy_server.LinkedList.{Store, Linked, list_tail, back_of, list_insert}
use sy_server.LinkedList.Segment.{
  Seg, last, AllDistinct, Seg-next, Seg-prev, NoneIs-NotInner, NoneIs-last, last-NotInner, Seg-snoc,
  last-snoc, snoc-AllDistinct,
}

-- The list has the nodes `xs`.
pub record IsList (st : Store) (list : Linked) (xs : List ℕ) : Type 0 where
  pub linked : Seg st.next st.prev list.dummy xs
  pub ended : st.next (last list.dummy xs) ≡ 0
  pub tail_is : st.prev list.dummy ≡ last list.dummy xs
  pub distinct : AllDistinct (list.dummy ∷ xs)
  pub counted : list.size ≡ length xs
  pub some_dummy : 0 < list.dummy

-- In a list with a dummy the last node is none at NULL.
last-lo : (a : ℕ) (next prev : Words) (xs : List ℕ) → 0 < a → Seg next prev a xs → 0 < last a xs
last-lo a next prev [] lo seg = lo
last-lo a next prev (x ∷ xs) lo (_, lo', _, seg) = last-lo x next prev xs lo' seg

-- The nodes behind the insertion of a new one behind the last one, `p`.
abbrev appended : Store → Linked → ℕ → ℕ → Store
appended st list p new_node = record st {
  next = write (write st.next new_node 0) p new_node;
  prev = write (write st.prev list.dummy new_node) new_node p;
}

list_insert-appended :
    (st : Store) (list : Linked) (p new_node : ℕ)
    → 0 < p
    → st.prev list.dummy ≡ p
    → st.next p ≡ 0
    → list_insert st list (list_tail st list) new_node
      ≡ some (ok, appended st list p new_node, record list { size = list.size + 1 })
unfolding list_insert
list_insert-appended st list p new_node lo at ended =
    let list' = record list { size = list.size + 1 } in
    let inserted : ℕ → Option (Code × Store × Linked) = λ following. some (
      ok,
      record st {
        next = write (write st.next new_node following) p new_node;
        prev = write (write st.prev (back_of list following) new_node) new_node p;
      },
      list',
    ) in
    ap (λ q. list_insert st list q new_node) at
    ∙ ap (λ b. if b then none else inserted (st.next p)) (ne→== p 0 (omega arith))
    ∙ ap inserted ended

appended-IsList :
    (st : Store) (list : Linked) (xs : List ℕ) (new_node : ℕ)
    → IsList st list xs
    → 0 < new_node
    → NoneIs new_node (list.dummy ∷ xs)
    → IsList
        (appended st list (last list.dummy xs) new_node)
        (record list { size = list.size + 1 })
        (xs ++ new_node ∷ [])
appended-IsList st list xs y is lo away =
    let d = list.dummy in
    let p = last d xs in
    let next1 = write st.next y 0 in
    let next2 = write next1 p y in
    let prev1 = write st.prev d y in
    let prev2 = write prev1 y p in
    let seg = Seg-prev xs next2 prev1 d y p away.1 (
      Seg-prev xs next2 st.prev d d y is.distinct.0 (
        Seg-next xs next1 st.prev d p y (last-NotInner d xs is.distinct)
          (Seg-next xs st.next st.prev d y 0 (NoneIs-NotInner y d xs away) is.linked))) in
    let apart = NoneIs-last y d xs away in
    let ne = away.0 in
    record {
      linked = Seg-snoc xs next2 prev2 d y seg (write_same next1 p y) lo (write_same prev1 y p);
      ended =
          ap next2 (last-snoc d y xs)
          ∙ write_other next1 p y y (omega arith)
          ∙ write_same st.next y 0;
      tail_is =
          write_other prev1 y p d (omega arith) ∙ write_same st.prev d y ∙ sym (last-snoc d y xs);
      distinct = snoc-AllDistinct y (d ∷ xs) away is.distinct;
      counted = omega (arith, is.counted, length-append xs (y ∷ []));
      some_dummy = is.some_dummy;
    }

-- `sy_list_insert` behind the last node of a list with the nodes `xs`, which is what a queue does to
-- push, makes the list `xs` with the new node at its end, for a node that is not in the list.
pub list_insert-IsList :
    (st : Store) (list : Linked) (xs : List ℕ) (new_node : ℕ)
    → IsList st list xs
    → 0 < new_node
    → NoneIs new_node (list.dummy ∷ xs)
    → (st' : Store) × (list_insert st list (list_tail st list) new_node
        ≡ some (ok, st', record list { size = list.size + 1 }))
      × IsList st' (record list { size = list.size + 1 }) (xs ++ new_node ∷ [])
list_insert-IsList st list xs new_node is lo away =
    let p = last list.dummy xs in
    (
      appended st list p new_node,
      list_insert-appended st list p new_node
          (last-lo list.dummy st.next st.prev xs is.some_dummy is.linked) is.tail_is is.ended,
      appended-IsList st list xs new_node is lo away,
    )
