-- ===== src/Relay.antt =====
-- Who owns which block while a connection relays packets: the receive buffers of peerconnection.cpp,
-- its send requests, and the handles and functions by which pool.cpp posts work to a loop. A block is
-- an address, its bytes are left out. What the loops do next is left open: a move takes any task,
-- handle or request that waits.
pub mod Sound
pub mod Kept
pub mod Safe
pub mod Ends
pub mod Watched
pub mod Twice
pub mod Socket
use spadia.Common.{
  ℕ, zero, suc, ◌+◌, ◌-◌, ◌==◌, ltb, ℤ, pos, negsuc, Bool, true, false, not, ◌&&◌, List, [], ◌∷◌,
  Option, none, some, if◌then◌else◌, Run, done, fault, bad_free, ◌>>=◌,
}
use spadia.Stream.{MediaStream, on_rtp}
use spadia.Connection.{Outcome, responded, took_rtcp, took_rtp}

-- A `uv_async_t` that `Async` sent, its `data` (a function), and the packet's data that the
-- function of `OnMediaData` holds.
pub record Task : Type 0 where
  pub handle : ℕ
  pub func : ℕ
  pub packet : ℕ

-- A `uv_udp_send_t` on its way, and its `data`.
pub record Request : Type 0 where
  pub req : ℕ
  pub block : ℕ

-- The blocks that are allocated, the next address, and what waits for the loops: tasks, handles
-- that `uv_close` was called on, requests.
pub record Relay : Type 0 where
  pub next : ℕ
  pub live : List ℕ
  pub tasks : List Task
  pub closing : List ℕ
  pub requests : List Request

abbrev pub new_relay : Relay
new_relay = record { next = 1; live = []; tasks = []; closing = []; requests = [] }

abbrev pub is_in : ℕ → List ℕ → Bool
is_in a [] = false
is_in a (x ∷ xs) = if x == a then true else is_in a xs

-- One occurrence less.
abbrev pub remove : ℕ → List ℕ → List ℕ
remove a [] = []
remove a (x ∷ xs) = if x == a then xs else x ∷ remove a xs

-- `malloc` and `new`, for the address `s.next`.
unfoldable pub alloc : Relay → Relay
alloc s = record s { next = s.next + 1; live = s.next ∷ s.live }

-- `free` and `delete`
unfoldable pub release : ℕ → Relay → Run Relay
release a s = if is_in a s.live then done (record s { live = remove a s.live }) else fault bad_free

-- `Pool::Async`
unfoldable pub async : ℕ → Relay → Relay
unfolding alloc
async packet s = record (alloc (alloc s)) {
  tasks = record { handle = s.next; func = s.next + 1; packet = packet } ∷ s.tasks;
}

-- `sendData`, which ignores what `uv_udp_send` returns: the request waits for its callback where libuv
-- accepts it, and nobody has it where libuv refuses, as it does without an address.
unfoldable pub send_data : Bool → ℕ → Relay → Relay
unfolding alloc
send_data accepted block s =
    if accepted
    then record (alloc s) { requests = record { req = s.next; block = block } ∷ s.requests }
    else alloc s

-- `async_cb` on a task whose function sends the packet's data.
unfoldable pub async_cb : Bool → Task → Relay → Run Relay
unfolding send_data release
async_cb accepted t s =
    let sent = send_data accepted t.packet s in
    release t.func (record sent { closing = t.handle ∷ sent.closing })

-- `send_u`; the `data` of both callers is not null.
unfoldable pub send_u : Request → Relay → Run Relay
unfolding release
send_u r s = release r.block s >>= release r.req

-- `OnMediaData` of every sink in turn, on the packet that lies at `packet`.
unfoldable pub on_media_data : ℕ → List ℕ → Relay → Relay
unfolding async
on_media_data packet [] s = s
on_media_data packet (sink ∷ sinks) s = on_media_data packet sinks (async packet s)

-- `malloc` of what is sent, and `sendData` or the same lines in `OnSocketData`.
unfoldable pub send_new : Bool → Relay → Relay
unfolding alloc send_data
send_new accepted s = send_data accepted s.next (alloc s)

-- What `OnSocketData` does with the blocks, by its outcome on the datagram at `base`; `sinks` are
-- those of the remote stream whose `OnMediaData` is called, and `accepted` says whether libuv accepts
-- what is sent.
unfoldable pub on_outcome : ℕ → List ℕ → Bool → Outcome → Relay → Relay
unfolding send_new on_media_data
on_outcome base sinks accepted (responded size block) s = send_new accepted s
on_outcome base sinks accepted (took_rtcp items) s = s
on_outcome base sinks accepted (took_rtp none packet) s = on_media_data base sinks s
on_outcome base sinks accepted (took_rtp (some sent) packet) s =
    on_media_data base sinks (send_new accepted s)

-- What libuv calls `read_u` with: `nread`, whether `addr` and `handle->data` are not null; what
-- `OnSocketData` comes to, if it is called, and whether libuv accepts what it sends.
pub record Arrival : Type 0 where
  pub nread : ℤ
  pub has_addr : Bool
  pub has_data : Bool
  pub outcome : Outcome
  pub accepted : Bool

abbrev pub is_positive : ℤ → Bool
is_positive (pos n) = ltb 0 n
is_positive (negsuc n) = false

abbrev pub is_zero : ℤ → Bool
is_zero (pos n) = n == 0
is_zero (negsuc n) = false

-- `read_u` on the buffer at `base`.
unfoldable pub read_u : ℕ → Arrival → List ℕ → Relay → Run Relay
unfolding on_outcome release
read_u base a sinks s =
    let s1 =
      if is_positive a.nread && a.has_data
      then on_outcome base sinks a.accepted a.outcome s
      else s in
    if is_zero a.nread && not a.has_addr then release base s1 else done s1

-- What a loop does next: read from a socket (with the connections that live, and the remote
-- stream), or take the waiting task (and whether libuv accepts its send), handle or request of a
-- number.
pub data Move : Type 0 where
  arrive : Arrival → (ℕ → Bool) → MediaStream → Move
  run_task : Bool → ℕ → Move
  close_handle : ℕ → Move
  complete : ℕ → Move

abbrev pub pick {ℓ} : {A : Type ℓ} → ℕ → List A → Option (A × List A)
pick k [] = none
pick zero (x ∷ xs) = some (x, xs)
pick (suc k) (x ∷ xs) = elim (pick k xs) [ none ↦ none | some (y, ys) ↦ some (y, x ∷ ys) ]

-- Nothing to do where nothing of the number waits.
unfoldable pub take_task : Bool → Option (Task × List Task) → Relay → Run Relay
unfolding async_cb
take_task accepted none s = done s
take_task accepted (some (t, rest)) s = async_cb accepted t (record s { tasks = rest })

-- The callback that `async_cb` gives to `uv_close`.
unfoldable pub take_handle : Option (ℕ × List ℕ) → Relay → Run Relay
unfolding release
take_handle none s = done s
take_handle (some (h, rest)) s = release h (record s { closing = rest })

unfoldable pub take_request : Option (Request × List Request) → Relay → Run Relay
unfolding send_u
take_request none s = done s
take_request (some (r, rest)) s = send_u r (record s { requests = rest })

-- A read starts with `buf_alloc`.
unfoldable pub step : Move → Relay → Run Relay
unfolding alloc read_u take_task take_handle take_request
step (arrive a alive m) s = read_u s.next a (on_rtp alive m) (alloc s)
step (run_task accepted k) s = take_task accepted (pick k s.tasks) s
step (close_handle k) s = take_handle (pick k s.closing) s
step (complete k) s = take_request (pick k s.requests) s

unfoldable pub run_moves : List Move → Relay → Run Relay
unfolding step
run_moves [] s = done s
run_moves (m ∷ ms) s = step m s >>= run_moves ms
