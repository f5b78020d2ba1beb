-- ===== src/Tests/Tables.antt =====
-- Strings in memory, and a table with two of them.
use sy_server.Base.{
  subst, ◌≢◌, ◌⊎◌, true, false, ℕ, ◌≡◌, some, ◌++◌, ◌∷◌, [], codes, refl, arith, ◌<◌,
}
use sy_server.Memory.{Memory, Str, write, store}
use sy_server.Strings.{string_cmp, string_eq}
use sy_server.Strings.Compare.{IsCText, text_cmp, string_cmp-text}
use sy_server.Strings.RunsOn.{RunsOn}
use sy_server.Strings.Equal.{string_eq-text}
use sy_server.Map.{
  Map, map_get, map_put, put_all, empty_map, value_in, head_of, at_slot, string_hash, hash_loop,
}
use sy_server.Map.Chains.{Represents, with_entry}
use sy_server.Map.Put.{Put, map_put-Represents}
use sy_server.Map.Found.{first_match, map_get-first_match}
use sy_server.Map.Absent.{IsMissing, empty_map-Represents, put_all-RunsOn}
use sy_server.Tests.Data.{blank}

-- Two names, and a third before a colon.
abbrev memory : Memory
memory =
    store (store (store blank 100 (codes "host" ++ 0 ∷ [])) 200 (codes "te" ++ 0 ∷ [])) 300
      (codes "host:")

abbrev host : Str
host = record { addr = 100; len = 4 }

abbrev te : Str
te = record { addr = 200; len = 2 }

abbrev received_host : Str
received_host = record { addr = 300; len = 4 }

host-IsCText : IsCText memory host (codes "host")
unfolding store write
host-IsCText = record {
  held = (refl, (refl, (refl, (refl, (refl, tt)))));
  no_nul = (omega arith, refl, (omega arith, refl, (omega arith, refl, (omega arith, refl, tt))));
  not_null = omega arith;
  below = omega arith;
}

te-IsCText : IsCText memory te (codes "te")
unfolding store write
te-IsCText = record {
  held = (refl, (refl, (refl, tt)));
  no_nul = (omega arith, refl, (omega arith, refl, tt));
  not_null = omega arith;
  below = omega arith;
}

received_host-RunsOn : RunsOn memory received_host (codes "host") b':'
unfolding store write
received_host-RunsOn = record {
  held = (refl, (refl, (refl, (refl, (refl, tt)))));
  no_nul = (omega arith, refl, (omega arith, refl, (omega arith, refl, (omega arith, refl, tt))));
  not_null = omega arith;
  not_end = omega arith;
}

string_cmp-text_example : string_cmp memory host te ≡ some (text_cmp (codes "host") (codes "te"))
string_cmp-text_example =
    string_cmp-text (codes "host") (codes "te") memory host te host-IsCText te-IsCText

string_eq-text_example :
    (codes "host" ≡ codes "te") × (string_eq memory host te ≡ some true)
    ⊎ (codes "host" ≢ codes "te") × (string_eq memory host te ≡ some false)
string_eq-text_example =
    string_eq-text (codes "host") (codes "te") memory host te host-IsCText te-IsCText

abbrev table : Map ℕ
table = empty_map 0 131 262

abbrev with_host : Map ℕ
with_host =
    let s = head_of memory table host in
    record table { slots = at_slot table.slots s (record (table.slots s) { key = host; val = 7 }) }

put_host : map_put memory table host 7 ≡ some with_host
unfolding map_put string_hash hash_loop store write
put_host = refl

with_host-Represents :
    Represents with_host (with_entry (λ b. []) (head_of memory table host) (host, 7))
with_host-Represents =
    (subst (Put table (λ b. []) (head_of memory table host) (host, 7)) put_host (
      map_put-Represents memory table (λ b. []) host 7
        (empty_map-Represents 0 131 262 (omega arith)) (omega arith))).0

map_put-Represents_example :
    Put with_host
      (with_entry (λ b. []) (head_of memory table host) (host, 7))
      (head_of memory with_host te)
      (te, 8)
      (map_put memory with_host te 8)
map_put-Represents_example =
    map_put-Represents memory with_host (with_entry (λ b. []) (head_of memory table host) (host, 7))
      te 8 with_host-Represents (omega arith)

map_get-first_match_example :
    value_in with_host (map_get memory with_host host)
    ≡ first_match memory host
        (with_entry (λ b. []) (head_of memory table host) (host, 7) (head_of memory with_host host))
map_get-first_match_example =
    map_get-first_match memory with_host
      (with_entry (λ b. []) (head_of memory table host) (host, 7)) host with_host-Represents

put_all-RunsOn_example :
    IsMissing memory received_host (262 < 133) (put_all memory table ((host, 7) ∷ (te, 8) ∷ []))
put_all-RunsOn_example =
    put_all-RunsOn 0 131 262 memory memory ((host, 7) ∷ (te, 8) ∷ []) received_host (codes "host")
      b':' (omega arith)
      (
        (
          codes "host",
          host-IsCText,
          (omega arith, refl, (omega arith, refl, (omega arith, refl, (omega arith, refl, tt)))),
        ),
        ((codes "te", te-IsCText, (omega arith, refl, (omega arith, refl, tt))), tt),
      )
      received_host-RunsOn
