-- ===== src/LinkedList/Cleared.antt =====
-- `sy_list_clear`, and the queue.
use sy_server.Base.{
  ℕ, zero, suc, ◌+◌, ◌-◌, ◌≤◌, ◌<◌, ◌≡◌, ap, ◌∙◌, none, some, List, [], ◌∷◌, ◌++◌, length, ne→==,
  eq→==, if◌then◌else◌, arith,
}
use sy_server.Util.{ok}
use sy_server.Pool.Chain.{NoneIs}
use sy_server.LinkedList.{
  Store, Linked, list_head, list_tail, list_insert, list_delete, cleared_by, clear_loop, list_clear,
  queue_push, header_width,
}
use sy_server.LinkedList.Insert.{IsList, list_insert-IsList}
use sy_server.LinkedList.Ends.{list_delete-IsList}

-- The loop ends when there is no node.
clear_loop-empty :
    (n : ℕ) (st : Store) (list : Linked)
    → list_head st list ≡ 0
    → clear_loop n st list ≡ some (st, list)
unfolding clear_loop
clear_loop-empty zero st list e =
    ap (λ b. if b then some (st, list) else none) (eq→== (list_head st list) 0 e)
clear_loop-empty (suc n) st list e =
    ap
      (λ b.
        if b
        then some (st, list)
        else cleared_by (clear_loop n) (list_delete st list (list_head st list)))
      (eq→== (list_head st list) 0 e)

clear_loop-next :
    (n : ℕ) (st st' : Store) (list list' : Linked)
    → 0 < list_head st list
    → list_delete st list (list_head st list) ≡ some (ok, st', list')
    → clear_loop (suc n) st list ≡ clear_loop n st' list'
unfolding clear_loop
clear_loop-next n st st' list list' lo deleted =
    ap
      (λ b.
        if b
        then some (st, list)
        else cleared_by (clear_loop n) (list_delete st list (list_head st list)))
      (ne→== (list_head st list) 0 (omega arith))
    ∙ ap (cleared_by (clear_loop n)) deleted

clear_loop-IsList :
    (xs : List ℕ) (n : ℕ) (st : Store) (list : Linked)
    → IsList st list xs
    → length xs ≤ n
    → (st' : Store) × (list' : Linked) × (clear_loop n st list ≡ some (st', list'))
      × IsList st' list' []
clear_loop-IsList [] n st list is le = (st, list, clear_loop-empty n st list is.ended, is)
clear_loop-IsList (x ∷ xs) zero st list is le = absurd (omega arith)
clear_loop-IsList (x ∷ xs) (suc n) st list is le =
    let (head, above, _, _) = is.linked in
    let (st1, deleted, is1, _) = list_delete-IsList st list x xs is in
    let list1 = record list { size = list.size - 1 } in
    let (st', list', run, is') = clear_loop-IsList xs n st1 list1 is1 (omega arith) in
    (st', list', clear_loop-next n st st1 list list1 (omega arith) deleted ∙ run, is')

-- `sy_list_clear` ends, after as many rounds as there are nodes, and leaves an empty list.
pub list_clear-IsList :
    (st : Store) (list : Linked) (xs : List ℕ)
    → IsList st list xs
    → (st' : Store) × (list' : Linked) × (list_clear st list ≡ some (st', list'))
      × IsList st' list' []
unfolding list_clear
list_clear-IsList st list xs is =
    clear_loop-IsList xs list.size st list is (omega (arith, is.counted))

-- `sy_queue_push` of the data of a node that is not in the queue `xs` makes the queue `xs` with the
-- node at its end.
pub queue_push-IsList :
    (st : Store) (list : Linked) (xs : List ℕ) (node : ℕ)
    → IsList st list xs
    → 0 < node
    → NoneIs node (list.dummy ∷ xs)
    → (st' : Store) × (queue_push st list (node + header_width)
        ≡ some (ok, st', record list { size = list.size + 1 }))
      × IsList st' (record list { size = list.size + 1 }) (xs ++ node ∷ [])
unfolding queue_push
queue_push-IsList st list xs node is lo away =
    let (st', run, is') = list_insert-IsList st list xs node is lo away in
    let e : node + header_width - header_width ≡ node = omega arith in
    (st', ap (list_insert st list (list_tail st list)) e ∙ run, is')
