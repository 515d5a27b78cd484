-- ===== src/Server/Start.antt =====
-- The constructor of `Server` and `Server::Start`, on the loops of the pool.
use spadia.Common.{ℕ, ◌<◌, ◌≡◌, ◌==◌, if◌then◌else◌, arith}
use spadia.Pool.{loop_num, get_loop}
use spadia.Pool.Runners.{outside, run, Process, new_process, new_process-count, count_runners}
use spadia.Server.{Server, new_server}

-- A server with the loop that it took.
pub record Started : Type 0 where
  pub server : Server
  pub loop : ℕ

-- `Server(port)`: it takes a loop and returns, in front of what would open its socket.
unfoldable pub construct : ℕ → Process → Started × Process
unfolding get_loop
construct port p =
    let (loop, pool) = get_loop p.pool in
    (record { server = new_server port; loop = loop }, record p { pool = pool })

-- `Start`, which stays in `uv_run` on the calling thread.
unfoldable pub start_server : Started → Process → Process
start_server s p = record p { runners = run outside s.loop p.runners }

-- Whatever `index` holds, each loop of the pool is run by one thread until `Start`, and behind it the
-- loop of the server is run by two at once; libuv allows one.
pub start_shares_loop :
    (index port : ℕ)
    → let (s, p) = construct port (new_process index) in
      (s.loop < loop_num)
      × ((loop : ℕ) → loop < loop_num → count_runners loop p.runners ≡ 1)
      × ((loop : ℕ)
          → loop < loop_num
          → count_runners loop (start_server s p).runners ≡ (if loop == s.loop then 2 else 1))
unfolding construct start_server
start_shares_loop index port =
    (omega arith, new_process-count index, λ loop h. ground (arith, new_process-count index loop h))
