-- ===== src/Tests/Server.antt =====
-- A server with one connection, for the users "ab" and "".
use spadia.Common.{
  zero, suc, length, ℕ, ◌+◌, ◌<◌, ◌≡◌, refl, List, [], ◌∷◌, length-replicate, get_or, some, none,
  done, arith, ◌==◌, if◌then◌else◌,
}
use spadia.Common.Texts.{Text, find}
use spadia.Memory.{Buffer}
use spadia.Memory.Access.{bytes_from}
use spadia.Stun.Serialize.Written.{covered}
use spadia.Server.{Peer, new_server, name_of, handed, on_data}
use spadia.Server.Table.{Op, add, destroy, run, replay, run_refines}
use spadia.Server.Reply.{on_data-Replies}
use spadia.Server.Start.{construct, start_server, start_shares_loop}
use spadia.Pool.Runners.{new_process, count_runners}
use spadia.Server.Connections.{Singletons}
use spadia.Tests.{big_endian, big_endian-IsBigEndian, block_of}
use spadia.Tests.Stun.{id, request, toy_hmac, username_read}

abbrev pub ab : Text
ab = 97 ∷ 98 ∷ []

-- Every connection has the local name "ab", and connection `n` the remote name of `n` colons.
abbrev pub colons : ℕ → Text
colons zero = []
colons (suc n) = 58 ∷ colons n

abbrev pub peers : ℕ → Peer
peers n = record { local_username = ab; remote_username = colons n; local_password = 5 ∷ [] }

abbrev ops : List Op
ops = add 0 ∷ add 1 ∷ destroy 1 ∷ []

run_refines_example : find (name_of ab []) (run peers ops (new_server 8080)).pc_table ≡ some 0
unfolding replay
run_refines_example =
    run_refines peers (λ pc. (refl, (refl, tt))) ops (new_server 8080) ab [] (refl, (refl, tt))

on_data-Replies_example :
    (block : Buffer) × (on_data big_endian toy_hmac
        (λ _. 0)
        peers
        (run peers ops (new_server 8080))
        (block_of request)
        29
      ≡ done (handed 52 block none))
    × ((j : ℕ)
        → j < 20
        → block.bytes (24 + j)
          ≡ get_or (toy_hmac (5 ∷ []) (covered (bytes_from (block_of request) 8 12))) j 0)
unfolding replay
on_data-Replies_example =
    on_data-Replies big_endian toy_hmac (λ _. 0) peers (block_of request) 29
      (record { username = 97 ∷ 98 ∷ 58 ∷ []; method = 1; kind = 0; trans_id = id })
      big_endian-IsBigEndian (refl, refl) (omega arith) (omega arith) username_read
      (λ key message. length-replicate 20 (length message)) (λ pc. (refl, (refl, tt))) ops 8080 ab
      [] (refl, (refl, tt)) refl

abbrev start : Singletons
start = record { pool = record { index = 254 }; server = new_server 65534 }

start_shares_loop_example :
    let (s, p) = construct 8080 (new_process 254) in
    (s.loop < 4)
    × ((loop : ℕ) → loop < 4 → count_runners loop p.runners ≡ 1)
    × ((loop : ℕ)
        → loop < 4
        → count_runners loop (start_server s p).runners ≡ (if loop == s.loop then 2 else 1))
start_shares_loop_example = start_shares_loop 254 8080
