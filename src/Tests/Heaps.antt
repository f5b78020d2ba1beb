-- ===== src/Tests/Heaps.antt =====
-- A heap of two connections at addresses 10 and 20, the times being the addresses.
use sy_server.Base.{ℕ, ◌*◌, ◌/◌, ◌≡◌, ◌≢◌, pos, some, refl, arith}
use sy_server.Connection.Heap.{Heap, register, unregister, activate, expire}
use sy_server.Connection.Activity.{BothTimed, activate-IsHeap, expire-IsHeap}
use sy_server.Connection.ShiftUp.{IsHeap}
use sy_server.Connection.Unregister.{unregister-IsHeap}
use sy_server.Connection.Register.{register-IsHeap}
use sy_server.Connection.Members.{Registered}

abbrev two : Heap
two = record { slots = λ i. i * 10; heap_size = 2; heap_idx = λ d. d / 10; active_time = λ d. d }

two-IsHeap : IsHeap two
two-IsHeap = record { ordered = λ i ge le. omega arith; indexed = λ i ge le. omega arith }

register-IsHeap_example :
    ((register two 5).0 ≡ pos 0)
    × IsHeap (register two 5).1
    × ((register two 5).1.heap_size ≡ 3)
    × Registered (register two 5).1 5
    × ((d : ℕ) → Registered two d → Registered (register two 5).1 d)
register-IsHeap_example = register-IsHeap two 5 two-IsHeap (λ i ge le e. omega arith) (omega arith)

root-Registered : Registered two 10
root-Registered = record { above = omega arith; inside = omega arith; there = refl }

unregister-IsHeap_example :
    (h' : Heap) × (unregister two 10 ≡ some h')
    × IsHeap h'
    × (h'.heap_size ≡ 1)
    × ((d : ℕ) → Registered two d → d ≢ 10 → Registered h' d)
unregister-IsHeap_example = unregister-IsHeap two 10 two-IsHeap root-Registered (λ ge. omega arith)

leaf-Registered : Registered two 20
leaf-Registered = record { above = omega arith; inside = omega arith; there = refl }

activate-IsHeap_example : BothTimed 30 20 10 two (activate 30 20 10 two)
activate-IsHeap_example =
    activate-IsHeap 30 20 10 two two-IsHeap root-Registered (omega arith)
      (λ ne. (leaf-Registered, omega arith))

expire-IsHeap_example : BothTimed 4 20 10 two (expire 30 25 20 10 two)
expire-IsHeap_example =
    expire-IsHeap 30 25 20 10 two two-IsHeap root-Registered (omega arith)
      (λ ne. (leaf-Registered, omega arith))
