-- ===== src/Server/Connections.antt =====
-- The connections that a process makes one after the other: the loop and the port of each.
use spadia.Common.{ℕ, zero, suc, ◌+◌, ◌-◌, ◌*◌, ◌%◌, ◌^◌, ◌<◌, ◌≡◌, ◌≢◌, sym, ◌∙◌, u16, arith}
use spadia.Pool.{Pool, loop_num, get_loop}
use spadia.Server.{Server, get_port}

-- The two singletons that the constructor of `PeerConnection` takes from.
pub record Singletons : Type 0 where
  pub pool : Pool
  pub server : Server

-- What the constructor sets, of what the others use: `loop_` and `port_`.
pub record Place : Type 0 where
  pub loop : ℕ
  pub port : ℕ

-- `PeerConnection()`
unfoldable pub new_connection : Singletons → Place × Singletons
unfolding get_loop get_port
new_connection s =
    let (loop, pool) = get_loop s.pool in
    let (port, server) = get_port s.server in
    (record { loop = loop; port = u16 port }, record { pool = pool; server = server })

-- After `n` connections, and the place of the connection after those.
pub after : ℕ → Singletons → Singletons
after zero s = s
after (suc n) s = after n (new_connection s).1

abbrev pub place : ℕ → Singletons → Place
place n s = (new_connection (after n s)).0

loop_of : (n : ℕ) (s : Singletons) → (place n s).loop ≡ (s.pool.index + n + 1) % loop_num
unfolding after new_connection
loop_of zero s = omega arith
loop_of (suc n) s = loop_of n (new_connection s).1 ∙ omega arith

port_of : (n : ℕ) (s : Singletons) → (place n s).port ≡ u16 (s.server.port + n)
unfolding after new_connection
port_of zero s = omega arith
port_of (suc n) s = port_of n (new_connection s).1 ∙ omega arith

-- No loop is left out: of any four connections in a row one is put on each loop.
each_loop_taken :
    (s : Singletons) (n loop : ℕ)
    → loop < loop_num
    → (k : ℕ) × (k < loop_num) × ((place (n + k) s).loop ≡ loop)
each_loop_taken s n loop h =
    let k = (loop + 2 * loop_num - (s.pool.index + n + 1) % loop_num) % loop_num in
    (k, omega arith, loop_of (n + k) s ∙ omega arith)

-- Two connections with fewer than 65536 from one to the other have different ports.
ports_differ :
    (s : Singletons) (i j : ℕ) → i < j → j < i + 2 ^ 16 → (place i s).port ≢ (place j s).port
ports_differ s i j before near same = absurd (omega (arith, sym (port_of i s) ∙ same ∙ port_of j s))
