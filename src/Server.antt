-- ===== src/Server.antt =====
-- server.h and server.cpp: the table of connections under their names, the ports, and what is made
-- of a datagram on the shared socket. Opening that socket is left out, and `PeerConnection::Active`,
-- which returns at once.
pub mod Table
pub mod Reply
pub mod Connections
pub mod Start
use spadia.Common.{
  ℕ, ◌+◌, Bool, true, false, List, [], ◌∷◌, ◌++◌, Option, none, some, u16, u32, if◌then◌else◌, Run,
  done, fault, null_pointer, ◌>>=◌,
}
use spadia.Common.Texts.{Text, find, assign, erase}
use spadia.Memory.{Buffer, ByteIo}
use spadia.Stun.Packet.{StunPacket, is_stun, make_response}
use spadia.Stun.Parse as StunParse
use spadia.Stun.Serialize as StunSerialize

-- What the server reads of a `PeerConnection`. A `shared_ptr` to one is its number in a store.
pub record Peer : Type 0 where
  pub local_username : Text
  pub remote_username : Text
  pub local_password : Text

pub record Server : Type 0 where
  pub pc_table : List (Text × ℕ)
  pub port : ℕ

-- `Server(port)`
abbrev pub new_server : ℕ → Server
new_server port = record { pc_table = []; port = port }

abbrev pub name_of : Text → Text → Text
name_of local remote = local ++ b':' ∷ remote

-- `AddPC`
unfoldable pub add_pc : (ℕ → Peer) → Server → ℕ → Server
unfolding assign
add_pc store s pc = record s {
  pc_table = assign (name_of (store pc).local_username (store pc).remote_username) pc s.pc_table;
}

-- `RemovePC`
unfoldable pub remove_pc : Server → Text → Text → Server
unfolding erase
remove_pc s local_username remote_username = record s {
  pc_table = erase (name_of local_username remote_username) s.pc_table;
}

-- `GetPort`; the caller keeps 16 bits of what it returns.
unfoldable pub get_port : Server → ℕ × Server
get_port s = (s.port, record s { port = u32 (s.port + 1) })

-- What `OnData` comes to: nothing for another protocol, a log line for an unknown name, or a response
-- of a size, its bytes and its address handed to `uv_udp_send`: `none` for a null pointer, by which
-- libuv is told that the socket is connected. What libuv then does is left open; it refuses the response
-- where the socket is not connected.
pub data Answer : Type 0 where
  ignored : Answer
  unknown_name : Answer
  handed : ℕ → Buffer → Option ℕ → Answer

module _ (io : ByteIo) (hmac : List ℕ → List ℕ → List ℕ) (junk : ℕ → ℕ) (store : ℕ → Peer) where
  -- The branches on what `pcTable.find` found.
  unfoldable pub respond : StunPacket → Option ℕ → Run Answer
  respond q none = done unknown_name
  respond q (some pc) = do
    (size, block) ← StunSerialize.serialize io hmac junk q (store pc).local_password
    done (handed size block none)

  -- From the `unique_ptr` that `Parse` returned on.
  unfoldable pub answer : Server → Option StunPacket → Run Answer
  unfolding respond find
  answer s none = fault null_pointer
  answer s (some p) = respond (make_response p) (find p.username s.pc_table)

  -- `OnData`
  unfoldable pub on_data : Server → Buffer → ℕ → Run Answer
  unfolding answer
  on_data s b len = do
    stun ← is_stun b
    if stun then (StunParse.parse io b len >>= answer s) else done ignored
