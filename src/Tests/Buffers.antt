-- ===== src/Tests/Buffers.antt =====
-- The theorems on buffers at small buffers.
use sy_server.Base.{ℕ, ◌≡◌, ◌+◌, ◌-◌, ◌≤◌, List, [], ◌∷◌, some, ◌⊎◌, arith, codes}
use sy_server.Memory.{Memory, bytes}
use sy_server.Buffer.{
  Buffer, IsBuffer, append_u32le, discard_parsed, append, append_string, print, Arrival, arrived,
  recv, Departure, accepted, send, size, margin, contents,
}
use sy_server.Buffer.Words.{
  Appends, word_bytes, little_endian, append_u32le_roundtrip, append_u32le_count,
}
use sy_server.Buffer.Copy.{
  discard_parsed_keeps, append-Appends, append_string-Appends, print-Appends,
}
use sy_server.Buffer.Recv.{Received, recv-Received, now_read, recv_code}
use sy_server.Buffer.Send.{Sent, send-Sent}
use sy_server.Util.{min}
use sy_server.Tests.Data.{blank, buffer, other, holding}

valid : (n : ℕ) → n ≤ 2048 → IsBuffer (buffer n)
valid n h = omega arith

abbrev answers : List Arrival
answers = arrived (1 ∷ 2 ∷ []) ∷ arrived (3 ∷ []) ∷ Arrival.would_block ∷ arrived (4 ∷ []) ∷ []

abbrev departures : List Departure
departures = accepted 2 ∷ Departure.would_block ∷ accepted 7 ∷ []

recv-Received_example :
    Received blank
      (buffer 5)
      answers
      (now_read (buffer 5) answers)
      (recv_code (buffer 5) answers)
      (recv answers blank (buffer 5))
recv-Received_example = recv-Received answers blank (buffer 5) (valid 5 (omega arith))

send-Sent_example :
    Sent
      (holding (codes "abc"))
      (buffer 3)
      departures
      (send departures (holding (codes "abc")) (buffer 3))
send-Sent_example = send-Sent departures (holding (codes "abc")) (buffer 3) (valid 3 (omega arith))

-- A buffer with five bytes, of which two are parsed.
abbrev parsed : Buffer
parsed = record (buffer 5) { begin = 1002 }

parsed-IsBuffer : IsBuffer parsed
parsed-IsBuffer = omega arith

discard_parsed_keeps_example :
    (contents
        (discard_parsed (holding (codes "abcde")) parsed).0
        (discard_parsed (holding (codes "abcde")) parsed).1
      ≡ contents (holding (codes "abcde")) parsed)
    × IsBuffer (discard_parsed (holding (codes "abcde")) parsed).1
    × (margin (discard_parsed (holding (codes "abcde")) parsed).1
        ≡ margin parsed + (parsed.begin - parsed.start))
discard_parsed_keeps_example = discard_parsed_keeps (holding (codes "abcde")) parsed parsed-IsBuffer

append-Appends_example :
    (m' : Memory) × (b : Buffer) × (append blank (buffer 2) (other 3) ≡ some (m', b))
    × Appends blank (buffer 2) (contents blank (other 3)) (size (other 3)) m' b
append-Appends_example =
    append-Appends blank (buffer 2) (other 3) (valid 2 (omega arith)) (omega arith) (omega arith)

append_string-Appends_example :
    (m' : Memory) × (b' : Buffer) × (append_string blank
        (buffer 2045)
        (record { addr = 10; len = 5 })
      ≡ some (min (margin (buffer 2045)) 5, m', b'))
    × Appends blank
        (buffer 2045)
        (bytes blank 10 (min (margin (buffer 2045)) 5))
        (min (margin (buffer 2045)) 5)
        m'
        b'
append_string-Appends_example =
    append_string-Appends blank (buffer 2045) (record { addr = 10; len = 5 })
      (valid 2045 (omega arith)) (omega arith)

print-Appends_example :
    (m' : Memory) × (b' : Buffer) × (print blank (buffer 2) (codes "12") ≡ some (2, m', b'))
    × Appends blank (buffer 2) (codes "12") 2 m' b'
print-Appends_example =
    print-Appends blank (buffer 2) (codes "12") (valid 2 (omega arith)) (omega arith)

append_u32le_roundtrip_example :
    Appends blank
      (buffer 2)
      (word_bytes 0x12345678)
      4
      (append_u32le blank (buffer 2) 0x12345678).1
      (append_u32le blank (buffer 2) 0x12345678).2
    × (little_endian (word_bytes 0x12345678) ≡ 0x12345678)
append_u32le_roundtrip_example =
    append_u32le_roundtrip blank (buffer 2) 0x12345678 (valid 2 (omega arith)) (omega arith)
      (omega arith)

append_u32le_count_example :
    ((append_u32le blank (buffer 2046) 77).0 ≤ 4)
    × ((append_u32le blank (buffer 2046) 77).2.end
        ≡ (buffer 2046).end + (append_u32le blank (buffer 2046) 77).0)
    × ((append_u32le blank (buffer 2046) 77).2.end ≤ (buffer 2046).limit)
    × (((append_u32le blank (buffer 2046) 77).0 ≡ 4)
        ⊎ ((append_u32le blank (buffer 2046) 77).2.end ≡ (buffer 2046).limit))
append_u32le_count_example = append_u32le_count blank (buffer 2046) 77 (omega arith)
