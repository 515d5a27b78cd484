-- ===== src/Sdp/Offer.antt =====
-- The side that offers: `CreateOffer` and `SetRemoteSdp` of peerconnection.cpp. `SetRemoteSdp` reads
-- nothing of its text, and `SendBindRequestForStart`, which it calls, has an empty body.
use spadia.Common.{ℕ, ◌≡◌, refl, true, false, List, [], ◌∷◌, none, some, done, arith}
use spadia.Common.Texts.{Text, is_text, find, find-assign}
use spadia.Memory.{Buffer, ByteIo}
use spadia.Stun.Packet.{StunPacket, is_stun}
use spadia.Stun.Parse as StunParse
use spadia.Session.Manager.{new_manager}
use spadia.Server.{Server, Peer, name_of, add_pc, unknown_name, respond, answer, on_data}
use spadia.Sdp.{PeerConnection}
use spadia.Sdp.Answer.{peer_of}

-- `CreateOffer`: the text returned, and the connection with a session.
unfoldable pub create_offer : PeerConnection → Text × PeerConnection
create_offer pc = ([], record pc { session_manager = some new_manager })

-- `SetRemoteSdp`, called on the connection of number `this`.
unfoldable pub set_remote_sdp : Text → PeerConnection → ℕ → Server → Server
unfolding add_pc
set_remote_sdp sdp pc this server = add_pc (λ _. peer_of pc) server this

-- A name with a remote user is not the name without one.
remote_name :
    (local : Text) (c : ℕ) (cs : Text) → is_text (name_of local (c ∷ cs)) (name_of local []) ≡ false
remote_name [] c cs = refl
remote_name (x ∷ xs) c cs = ground (arith, remote_name xs c cs)

-- What answers to an offer does not come through: where a connection offers and is given whatever
-- answer, the server still does not know the name, local and remote, of a Binding request of the
-- user who answered, if that user's name is not empty and the table had no such name before.
pub offering_unknown :
    (io : ByteIo) (hmac : List ℕ → List ℕ → List ℕ) (junk : ℕ → ℕ) (store : ℕ → Peer)
    (pc : PeerConnection) (sdp : Text) (this : ℕ) (server : Server) (b : Buffer) (size : ℕ)
    (p : StunPacket) (c : ℕ) (cs : Text)
    → pc.remote_username ≡ []
    → find (name_of pc.local_username (c ∷ cs)) server.pc_table ≡ none
    → is_stun b ≡ done true
    → StunParse.parse io b size ≡ done (some p)
    → p.username ≡ name_of pc.local_username (c ∷ cs)
    → on_data io hmac junk store (set_remote_sdp sdp (create_offer pc).1 this server) b size
      ≡ done unknown_name
unfolding on_data answer respond set_remote_sdp create_offer find
offering_unknown io hmac junk store pc sdp this server b size p c cs new unlisted stun parsed
      named =
    rw
      (
        stun,
        parsed,
        named,
        new,
        find-assign (name_of pc.local_username []) (name_of pc.local_username (c ∷ cs)) this
            server.pc_table,
        remote_name pc.local_username c cs,
        unlisted,
      )
      refl
