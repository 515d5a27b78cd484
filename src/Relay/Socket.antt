-- ===== src/Relay/Socket.antt =====
-- The receive buffers and send requests of server.cpp: its `read_s`, what `OnData` does with the
-- blocks, and `send_u`. What libuv does with a request is left open: it refuses it, sends it at once,
-- or keeps it, with the pointer to the data, until the socket can be written.
pub mod Left
pub mod Held
pub mod Turns
pub mod Ends
use spadia.Common.{
  ℕ, ℤ, Bool, true, false, not, ◌&&◌, List, [], ◌∷◌, Option, none, some, if◌then◌else◌, Run, done,
  fault, out_of_bounds, ◌>>=◌,
}
use spadia.Server.{Answer, ignored, unknown_name, handed}
use spadia.Relay.{Relay, new_relay, alloc, release, is_positive, is_zero, is_in, pick}

-- What `uv_udp_send` does.
pub data Sending : Type 0 where
  refused sent queued : Sending

-- A `uv_udp_send_t` whose callback is to come, the data handed over with it, and whether libuv has
-- yet to read that.
pub record Send : Type 0 where
  pub req : ℕ
  pub block : ℕ
  pub is_late : Bool

-- The blocks, and what waits for the loop.
pub record Serving : Type 0 where
  pub heap : Relay
  pub sends : List Send

abbrev pub new_serving : Serving
new_serving = record { heap = new_relay; sends = [] }

-- What libuv calls `read_s` with: `nread`, whether `addr` and `handle->data` are not null; what
-- `OnData` comes to, if it is called; and what becomes of the response.
pub record Datagram : Type 0 where
  pub nread : ℤ
  pub has_addr : Bool
  pub has_data : Bool
  pub answer : Answer
  pub sending : Sending

-- `uv_udp_send` on the request and the data.
unfoldable pub uv_udp_send : Sending → ℕ → ℕ → Serving → Serving
uv_udp_send refused req block s = s
uv_udp_send sent req block s = record s {
  sends = record { req = req; block = block; is_late = false } ∷ s.sends;
}
uv_udp_send queued req block s = record s {
  sends = record { req = req; block = block; is_late = true } ∷ s.sends;
}

-- `free` and `delete`
unfoldable pub free : ℕ → Serving → Run Serving
unfolding release
free b s = release b s.heap >>= λ heap. done (record s { heap = heap })

-- `OnData`: the response that `Serialize` allocates, its request, and the release behind the call.
unfoldable pub on_answer : Answer → Sending → Serving → Run Serving
unfolding alloc uv_udp_send free
on_answer ignored w s = done s
on_answer unknown_name w s = done s
on_answer (handed size block to) w s =
    let data_block = s.heap.next in
    let allocated = alloc s.heap in
    let req = allocated.next in
    free data_block (uv_udp_send w req data_block (record s { heap = alloc allocated }))

-- `read_s` on the buffer at `base`.
unfoldable pub read_s : ℕ → Datagram → Serving → Run Serving
unfolding on_answer free
read_s base d s = do
  t ←
      if d.has_addr && (is_positive d.nread && d.has_data)
      then on_answer d.answer d.sending s
      else done s
  if is_zero d.nread && not d.has_addr then free base t else done t

-- libuv reads the data of a request that it kept.
unfoldable pub read_late : Send → Relay → Run Relay
unfolding release
read_late w heap =
    if w.is_late
    then (if is_in w.block heap.live then done heap else fault out_of_bounds)
    else done heap

-- A request is done with: `send_u`.
unfoldable pub complete_send : Option (Send × List Send) → Serving → Run Serving
unfolding read_late free
complete_send none s = done s
complete_send (some (w, rest)) s = do
  heap ← read_late w s.heap
  free w.req (record { heap = heap; sends = rest })

-- What the loop does next: read from the socket, or finish the waiting request of a number.
pub data Turn : Type 0 where
  receive : Datagram → Turn
  finish_send : ℕ → Turn

-- A read starts with `buf_alloc_s`.
unfoldable pub turn : Turn → Serving → Run Serving
unfolding alloc read_s complete_send
turn (receive d) s = read_s s.heap.next d (record s { heap = alloc s.heap })
turn (finish_send k) s = complete_send (pick k s.sends) s

unfoldable pub run_turns : List Turn → Serving → Run Serving
unfolding turn
run_turns [] s = done s
run_turns (t ∷ ts) s = turn t s >>= run_turns ts
