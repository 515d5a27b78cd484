-- ===== src/Forward.antt =====
-- peerconnection.cpp: all connections of a process, the address that each sends to, and the packets
-- on their way from one to the others. A packet has a number, and its data is one block, which every
-- function that waits reads and which `send_u` frees; the other blocks are left to Relay.

pub mod Tasks
pub mod Delivery
pub mod Redirect
pub mod Reached
use spadia.Common.{
  ◌+◌, fault, out_of_bounds, bad_free, ℕ, ◌==◌, Bool, List, [], ◌∷◌, ◌++◌, map, Option, none, some,
  if◌then◌else◌, Run, done, ◌>>=◌,
}
use spadia.Memory.{Buffer, ByteIo}
use spadia.Rtp.Packet.{RtpPacket}
use spadia.Session.Manager.{Sent}
use spadia.Stream.{MediaStream, on_rtp}
use spadia.Connection.{Connection, World, Outcome, responded, took_rtcp, took_rtp, on_socket_data}
use spadia.Relay.{pick, is_in}

-- A connection, its `remoteStream_`, and `lastRemote_`: `none` until the first datagram sets it, since it
-- has no initializer. An address is a number.
pub record Peer : Type 0 where
  pub connection : Connection
  pub remote_stream : MediaStream
  pub last_remote : Option ℕ

-- What is handed to `uv_udp_send`: the connection whose socket it is, the address, the length and
-- the data.
pub record Dispatch : Type 0 where
  pub from : ℕ
  pub to : Option ℕ
  pub size : ℕ
  pub data_block : Buffer

-- A function that `OnMediaData` gave to `Async`: a sink, a packet, and the number of the packet.
pub record Task : Type 0 where
  pub sink : ℕ
  pub packet : RtpPacket
  pub number : ℕ

-- The connections by number, which of them live, the functions that wait, the number of the next
-- packet, the packets whose data was freed, what has been handed to `uv_udp_send`, and the requests
-- whose callback is to come: each has the data of a packet, or a block of its own (`none`).
pub record System : Type 0 where
  pub peers : ℕ → Peer
  pub alive : ℕ → Bool
  pub tasks : List Task
  pub next_packet : ℕ
  pub freed : List ℕ
  pub sent : List Dispatch
  pub requests : List (Option ℕ)

-- `sendData` of a connection, on the data of a packet or on a block of its own.
unfoldable pub send_data : ℕ → Option ℕ → ℕ → Buffer → System → System
send_data pc number size block s = record s {
  sent =
      record { from = pc; to = (s.peers pc).last_remote; size = size; data_block = block } ∷ s.sent;
  requests = number ∷ s.requests;
}

-- What `OnRTCP` sends for a packet, if anything.
unfoldable pub send_feedback : ℕ → Sent → System → System
unfolding send_data
send_feedback pc none s = s
send_feedback pc (some (size, block)) s = send_data pc none size block s

-- `OnMediaData` of every sink in turn.
abbrev pub on_media_data : RtpPacket → ℕ → List ℕ → List Task
on_media_data packet number [] = []
on_media_data packet number (sink ∷ sinks) =
    record { sink = sink; packet = packet; number = number } ∷ on_media_data packet number sinks

-- What `OnSocketData` of a connection sends and passes on, by its outcome.
unfoldable pub deliver : ℕ → Outcome → System → System
unfolding send_data send_feedback
deliver pc (responded size block) s = send_data pc none size block s
deliver pc (took_rtcp items) s = s
deliver pc (took_rtp sent packet) s =
    let answered = send_feedback pc sent s in
    record answered {
      tasks =
          answered.tasks
          ++ on_media_data packet s.next_packet (on_rtp s.alive (s.peers pc).remote_stream);
      next_packet = s.next_packet + 1;
    }

-- `OnSocketData` of a connection: `lastRemote_` is set first, whatever the datagram is.
unfoldable pub arrive :
    ByteIo
    → (List ℕ → List ℕ → List ℕ)
    → World
    → (pc address : ℕ) → Buffer
    → ℕ
    → System
    → Run System
unfolding deliver
arrive io hmac w pc address b size s = do
  let peer = s.peers pc
  (connection, outcome) ← on_socket_data io hmac w peer.connection b size
  let after : Peer = record peer { connection = connection; last_remote = some address }
  done (deliver pc outcome (record s { peers = λ x. if x == pc then after else s.peers x }))

-- A function that waits runs: any of them, since each connection has its own loop. It reads the data
-- of its packet.
unfoldable pub take_task : Option (Task × List Task) → System → Run System
unfolding send_data
take_task none s = done s
take_task (some (t, rest)) s =
    if is_in t.number s.freed
    then fault out_of_bounds
    else done
        (send_data t.sink (some t.number) t.packet.size t.packet.bytes (record s { tasks = rest }))

-- `send_u` of a request, which frees its data.
unfoldable pub send_u : Option (Option ℕ × List (Option ℕ)) → System → Run System
send_u none s = done s
send_u (some (none, rest)) s = done (record s { requests = rest })
send_u (some (some number, rest)) s =
    if is_in number s.freed
    then fault bad_free
    else done (record s { requests = rest; freed = number ∷ s.freed })

-- What the loops do next: a function that waits, or the callback of a request.
pub data Move : Type 0 where
  run_function : ℕ → Move
  complete : ℕ → Move

unfoldable pub step : Move → System → Run System
unfolding take_task send_u
step (run_function k) s = take_task (pick k s.tasks) s
step (complete k) s = send_u (pick k s.requests) s

unfoldable pub run_moves : List Move → System → Run System
unfolding step
run_moves [] s = done s
run_moves (m ∷ ms) s = step m s >>= run_moves ms
