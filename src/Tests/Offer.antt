-- ===== src/Tests/Offer.antt =====
-- A connection that offers, and a Binding request of the user "c" who answered.
use spadia.Common.{ℕ, ◌≡◌, refl, true, List, [], ◌∷◌, ◌++◌, none, some, done}
use spadia.Common.Texts.{find}
use spadia.Memory.{load, read16, slice}
use spadia.Tools.{pad32}
use spadia.Stun.Packet.{StunPacket, is_stun}
use spadia.Stun.Parse.{parse, attributes, take_attribute}
use spadia.Stun.Serialize.{magic_cookie}
use spadia.Server.{new_server, unknown_name, on_data}
use spadia.Sdp.{PeerConnection}
use spadia.Sdp.Offer.{create_offer, set_remote_sdp, offering_unknown}
use spadia.Tests.{big_endian, block_of}
use spadia.Tests.Server.{ab, peers}
use spadia.Tests.Stun.{id, toy_hmac}

abbrev offering : PeerConnection
offering = record {
  session_manager = none;
  has_callback = true;
  local_stream = none;
  remote_stream = none;
  local_username = ab;
  local_password = 5 ∷ [];
  remote_username = [];
  remote_password = [];
  port = 8080;
}

-- The username is "ab:c".
abbrev request_of_c : List ℕ
request_of_c = 0 ∷ 1 ∷ 0 ∷ 8 ∷ (magic_cookie ++ (id ++ 0 ∷ 6 ∷ 0 ∷ 4 ∷ 97 ∷ 98 ∷ 58 ∷ 99 ∷ 0 ∷ []))

abbrev from_c : StunPacket
from_c = record { username = 97 ∷ 98 ∷ 58 ∷ 99 ∷ []; method = 1; kind = 0; trans_id = id }

request_of_c_read : parse big_endian (block_of request_of_c) 29 ≡ done (some from_c)
unfolding parse attributes take_attribute read16 slice load pad32
request_of_c_read = refl

request_of_c_stun : is_stun (block_of request_of_c) ≡ done true
unfolding is_stun load
request_of_c_stun = refl

offering_unknown_example :
    on_data big_endian toy_hmac
      (λ _. 0)
      peers
      (set_remote_sdp (1 ∷ []) (create_offer offering).1 0 (new_server 8080))
      (block_of request_of_c)
      29
    ≡ done unknown_name
unfolding find
offering_unknown_example =
    offering_unknown big_endian toy_hmac (λ _. 0) peers offering (1 ∷ []) 0 (new_server 8080)
      (block_of request_of_c) 29 from_c 99 [] refl refl request_of_c_stun request_of_c_read refl
