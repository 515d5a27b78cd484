-- ===== src/Server/Reply.antt =====
-- How a server with connections answers a Binding request.
use spadia.Common.{
  ℕ, ◌+◌, ◌≤◌, ◌<◌, ◌≡◌, refl, ◌∙◌, ap, List, Option, none, some, length, get_or, Run, done, arith,
}
use spadia.Common.Texts.{Text, find}
use spadia.Memory.{Buffer, ByteIo, IsBigEndian}
use spadia.Memory.Access.{bytes_from}
use spadia.Stun.Packet.{StunPacket, make_response}
use spadia.Stun.Parse.{header_size, parse}
use spadia.Stun.Serialize.Written.{covered}
use spadia.Stun.Serialize.Response.{stun_response}
use spadia.Stun.Binding.{IsBinding, is_stun-IsBinding, bytes_from-IsId, parse-binding}
use spadia.Server.{
  Peer, Server, new_server, name_of, Answer, unknown_name, handed, on_data, respond,
}
use spadia.Server.Table.{IsId, Op, run, replay, replay-same, run_refines, view}

module _ (io : ByteIo) (hmac : List ℕ → List ℕ → List ℕ) (junk : ℕ → ℕ) (store : ℕ → Peer)
    (b : Buffer) (len : ℕ) (p : StunPacket) (big : IsBigEndian io) (request : IsBinding b)
    (whole : header_size ≤ len) (inside : len ≤ b.size)
    (parsed : parse io b len ≡ done (some p)) where
  on_data-request :
      (s : Server)
      → on_data io hmac junk store s b len
        ≡ respond io hmac junk store (make_response p) (find p.username s.pc_table)
  unfolding on_data
  on_data-request s = rw (is_stun-IsBinding b (omega arith) request, parsed)

  view-new : (port : ℕ) (l r : Text) → view (new_server port) l r ≡ none
  unfolding find
  view-new port l r = refl

  -- Where the name is unknown, no response; else one without an address, its MESSAGE-INTEGRITY keyed
  -- with the password of that connection.
  abbrev pub Replies : Option ℕ → Run Answer → Type 0
  Replies none a = a ≡ done unknown_name
  Replies (some pc) a =
      (block : Buffer) × (a ≡ done (handed 52 block none))
      × ((j : ℕ)
          → j < 20
          → block.bytes (24 + j)
            ≡ get_or (hmac (store pc).local_password (covered (bytes_from b 8 12))) j 0)

  module _ (full : (key message : List ℕ) → length (hmac key message) ≡ 20) where
    respond-Replies :
        (found : Option ℕ) → Replies found (respond io hmac junk store (make_response p) found)
    unfolding respond
    respond-Replies none = refl
    respond-Replies (some pc) =
        let (block, e, _, _, digest, _, _) =
          stun_response io hmac junk (store pc).local_password p.username (bytes_from b 8 12) p.kind
            big (bytes_from-IsId b) full in
        (block, rw (parse-binding io b big request len p whole inside parsed, e) refl, digest)

    -- What `OnData` does with a Binding request that `Parse` takes, by its username: for `local:remote`
    -- of two users who have a connection, after all additions and removals since the server was
    -- made, it hands libuv a response under the password of that connection, but with a null pointer
    -- for the address of the sender, and for two others it makes no response. Local names are letters
    -- and digits, a digest has 20 bytes.
    pub on_data-Replies :
        (ids : (pc : ℕ) → IsId (store pc).local_username) (ops : List Op) (port : ℕ) (l r : Text)
        → IsId l
        → p.username ≡ name_of l r
        → Replies
            (replay store ops (λ _ _. none) l r)
            (on_data io hmac junk store (run store ops (new_server port)) b len)
    on_data-Replies ids ops port l r h named =
        let s = run store ops (new_server port) in
        let found =
          ap (λ name. find name s.pc_table) named
          ∙ run_refines store ids ops (new_server port) l r h
          ∙ replay-same store ops _ (λ _ _. none) (λ l' r' _. view-new port l' r') l r h in
        rw (on_data-request s ∙ ap (respond io hmac junk store (make_response p)) found)
          (respond-Replies (replay store ops (λ _ _. none) l r))
