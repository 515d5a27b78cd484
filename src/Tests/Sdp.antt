-- ===== src/Tests/Sdp.antt =====
-- `CreateAnswer` on an offer with one media, with a listener for the remote stream and without.
use spadia.Common.{
  ℕ, ◌≡◌, refl, Bool, true, false, List, [], ◌∷◌, none, some, Yields, done, fault, exception, arith,
}
use spadia.Memory.{Buffer, read16, read32}
use spadia.Server.{Server, new_server, name_of}
use spadia.Connection.{took_rtp, on_socket_data}
use spadia.Session.Manager.{transport_wide, transport_cc_uri}
use spadia.Sdp.{sendrecv, recvonly, audio, Media, AnswerMedia, PeerConnection}
use spadia.Sdp.Answer.{negotiate, connection_of}
use spadia.Sdp.Answer.Medias.{announced}
use spadia.Sdp.Answer.Ready.{negotiated_feeds_back}
use spadia.Sdp.Answer.Agreed.{Answers, negotiate-Answers, negotiate_throws}
use spadia.Tests.{big_endian, big_endian-IsBigEndian, block_of, block_of-IsBytes}
use spadia.Tests.Rtp.{wire, taken, wire_parsed, wire-HasHeader}
use spadia.Tests.Connection.{world}
use spadia.Tests.Stun.{toy_hmac}
use spadia.Tests.Feedback.{entry, entry_found, some_time}
use spadia.Tests.Media.{wire_not_rtcp}
use spadia.Tests.Server.{ab}

-- An offer to send and receive, with the transport-wide extension as number 1.
abbrev pub offer : List (Media ℕ)
offer =
    record {
      direction = some sendrecv;
      ext = record { value = 4; uri = ab } ∷ record { value = 1; uri = transport_cc_uri } ∷ [];
      rtcp_fb = [];
      kind = audio;
      ssrc = some 1234;
      ice_ufrag = some (99 ∷ []);
      ice_pwd = some (100 ∷ []);
      rest = 0;
    }
    ∷ []

abbrev pub caller : Bool → PeerConnection
caller has_callback = record {
  session_manager = none;
  has_callback = has_callback;
  local_stream = none;
  remote_stream = none;
  local_username = ab;
  local_password = 5 ∷ [];
  remote_username = [];
  remote_password = [];
  port = 8080;
}

negotiate-Answers_example :
    Yields
      (Answers (1 ∷ []) (2 ∷ []) (new_server 8080) 0 (caller true) offer)
      (negotiate (1 ∷ []) (2 ∷ []) (new_server 8080) 0 (caller true) offer)
negotiate-Answers_example =
    negotiate-Answers (1 ∷ []) (2 ∷ []) (new_server 8080) 0 (caller true) offer refl refl

abbrev answers : List (AnswerMedia ℕ)
answers =
    record {
      direction = recvonly;
      ext = record { value = 1; uri = transport_cc_uri } ∷ [];
      rtcp_fb = [];
      kind = audio;
      ice_pwd = 5 ∷ [];
      ice_ufrag = ab;
      candidate_port = 8080;
      ssrcs = none;
      rest = 0;
    }
    ∷ []

abbrev called : PeerConnection
called = record (caller true) {
  session_manager = some (record { ext_map = (1, transport_wide) ∷ [] });
  remote_stream = some (record { audio_ssrc = 1234; video_ssrc = 0 });
  remote_username = 99 ∷ [];
  remote_password = 100 ∷ [];
}

abbrev listed : Server
listed = record { pc_table = (name_of ab (99 ∷ []), 0) ∷ []; port = 8080 }

agreed_on :
    negotiate (1 ∷ []) (2 ∷ []) (new_server 8080) 0 (caller true) offer
    ≡ done (answers, called, listed)
unfolding negotiate
agreed_on = refl

announced_one : (other : ℕ) → announced other answers ≡ true → other ≡ 1
announced_one other h = ground (arith, h)

negotiated_feeds_back_example :
    (block : Buffer) × (on_socket_data big_endian toy_hmac world
        (connection_of 0 called)
        (block_of wire)
        23
      ≡ done (connection_of 40 called, took_rtp (some (24, block)) taken))
    × (read32 big_endian block 8 ≡ done 7)
    × (read16 big_endian block 12 ≡ done 0xAA00)
negotiated_feeds_back_example =
    negotiated_feeds_back (1 ∷ []) (2 ∷ []) (new_server 8080) listed 0 (caller true) called offer
      answers agreed_on refl refl refl 1 refl announced_one big_endian toy_hmac world 0
      (block_of wire) 23 taken entry big_endian-IsBigEndian (block_of-IsBytes wire refl)
      (omega arith) wire-HasHeader wire_not_rtcp wire_parsed entry_found some_time (omega arith)
      refl

negotiate_throws_example :
    negotiate (1 ∷ []) (2 ∷ []) (new_server 8080) 0 (caller false) offer ≡ fault exception
negotiate_throws_example =
    negotiate_throws (1 ∷ []) (2 ∷ []) (new_server 8080) 0 (caller false) offer refl
