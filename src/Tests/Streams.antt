-- ===== src/Tests/Streams.antt =====
-- Concrete streams, clients and caches, of httpbin/helpers.go.
use go_httpbin.Base.{
  ℕ, ◌+◌, ◌-◌, ◌%◌, ◌≤◌, ◌≡◌, ◌⊎◌, true, none, some, [], ◌∷◌, arith, ℕ_discrete, if◌then◌else◌,
  length, Bytes, codes, str_eq, is_empty,
}
use go_httpbin.Base.Int.{ℤ, pos, pos_part}
use go_httpbin.Http.{Request}
use go_httpbin.Streams.{seek, seek_start, seek_end, read_all}
use go_httpbin.Streams.Reading.{content, at_offset, all_bytes, sum, seek-read_all}
use go_httpbin.Clients.{Net, get_client_ip}
use go_httpbin.Clients.Walking.{IsClient, get_client_ip-IsClient}
use go_httpbin.Caches.{BoundedCache, new_bounded_cache, put, get}
use go_httpbin.Caches.Bounded.{new, puts, Reaches-put}
use mathlib.Core.Logic.{ite}
use Prim.Native.Nat.{min, max}

abbrev letters : ℤ → ℕ
letters offset = 97 + pos_part offset % 26

seek-read_all_example :
    (seek (pos 0) seek_end (at_offset letters (pos 0) 30 5)
      ≡ ((none, pos 30), at_offset letters (pos 0) 30 30))
    × (seek (pos 20) seek_start (at_offset letters (pos 0) 30 5)
        ≡ ((none, pos 20), at_offset letters (pos 0) 30 20))
    × (all_bytes (read_all (4 ∷ 8 ∷ []) (at_offset letters (pos 0) 30 20)).0
        ≡ content letters 20 (min (sum (4 ∷ 8 ∷ [])) (30 - 20)))
    × ((read_all (4 ∷ 8 ∷ []) (at_offset letters (pos 0) 30 20)).1
        ≡ at_offset letters (pos 0) 30 (20 + min (sum (4 ∷ 8 ∷ [])) (30 - 20)))
seek-read_all_example =
    seek-read_all letters (pos 0) 30 (omega arith) 5 0 20 (4 ∷ 8 ∷ []) (omega arith) (omega arith)
      (omega arith, (omega arith, tt))

-- Addresses are their texts, a network is the one address that it holds, and a peer has no port.
abbrev pub plain_net : Net
plain_net = record {
  Ip = Bytes;
  Network = Bytes;
  host_of = λ s. s;
  parse_ip = λ s. if is_empty s then none else some s;
  contains = str_eq;
}

abbrev forwarded_request : Request
forwarded_request = record {
  method = codes "GET";
  path = codes "/ip";
  host = codes "localhost";
  remote_addr = codes "10.0.0.1";
  header = (codes "X-Forwarded-For", codes "1.1.1.1, 2.2.2.2, 10.0.0.1" ∷ []) ∷ [];
  query = [];
  path_values = [];
}

get_client_ip-IsClient_example :
    IsClient plain_net
      (codes "10.0.0.1" ∷ [])
      forwarded_request
      (get_client_ip plain_net (codes "10.0.0.1" ∷ []) true forwarded_request)
get_client_ip-IsClient_example =
    get_client_ip-IsClient plain_net (codes "10.0.0.1" ∷ []) forwarded_request

abbrev one_entry : BoundedCache ℕ ℕ
one_entry = put ℕ_discrete 0 7 70 (new_bounded_cache 1)

Reaches-put_example :
    (length one_entry.entries ≤ max 1 1)
    × (get ℕ_discrete 8 (put ℕ_discrete 0 8 80 one_entry) ≡ some 80)
    × ((get ℕ_discrete 7 (put ℕ_discrete 0 8 80 one_entry)
          ≡ ite (ℕ_discrete 8 7) (some 80) (get ℕ_discrete 7 one_entry))
        ⊎ ((get ℕ_discrete 7 (put ℕ_discrete 0 8 80 one_entry)
              ≡ ite (ℕ_discrete 8 7) (some 80) none)
            × (1 ≤ length one_entry.entries)))
Reaches-put_example =
    Reaches-put ℕ_discrete 1 one_entry 0 8 7 80 (puts (new_bounded_cache 1) 0 7 70 new)
