-- ===== src/Tests/Connection.antt =====
-- A connection at a Binding request, and at one whose username is longer than the message.
use spadia.Common.{
  ℕ, ◌≡◌, refl, true, List, [], ◌∷◌, ◌++◌, length, length-replicate, some, arith, fault,
  null_pointer,
}
use spadia.Stun.Serialize.{magic_cookie}
use spadia.Session.Manager.{new_manager}
use spadia.Connection.{Connection, World, on_socket_data, on_ice_timer}
use spadia.Connection.Answers.{Answered, on_socket_data_answers, on_socket_data_crashes}
use spadia.Tests.{big_endian, big_endian-IsBigEndian, block_of}
use spadia.Tests.Rtp.{junk_packet}
use spadia.Tests.Stun.{id, request, toy_hmac}

abbrev pub world : World
world = record {
  junk = λ _. 0;
  junk_ssrc = 0;
  junk_packet = junk_packet;
  junk_count = 0;
  now_ms = 40;
  now_us = 321000;
}

abbrev pub connection : Connection
connection = record {
  local_password = 5 ∷ [];
  session_manager = some new_manager;
  has_remote_stream = true;
  last_packet_recv_time_ms = 0;
}

on_socket_data_answers_example : Answered big_endian toy_hmac world connection (block_of request) 29
on_socket_data_answers_example =
    on_socket_data_answers big_endian toy_hmac world connection (block_of request) 29
      big_endian-IsBigEndian (refl, refl) (omega arith) (omega arith)
      (λ key message. length-replicate 20 (length message))

-- A username of 300 bytes is announced, and one follows.
abbrev crashing : List ℕ
crashing = 0 ∷ 1 ∷ 0 ∷ 8 ∷ (magic_cookie ++ (id ++ 0 ∷ 6 ∷ 1 ∷ 44 ∷ 97 ∷ []))

on_socket_data_crashes_example :
    on_socket_data big_endian toy_hmac world connection (block_of crashing) 25 ≡ fault null_pointer
on_socket_data_crashes_example =
    on_socket_data_crashes big_endian toy_hmac world connection (block_of crashing) 25 (refl, refl)
      (omega arith) (omega arith) (omega arith)

-- A connection that is silent for more than ten seconds is only found to be so.
silent :
    on_ice_timer 20001 (record connection { last_packet_recv_time_ms = 10000 })
    ≡ (record connection { last_packet_recv_time_ms = 10000 }, true)
unfolding on_ice_timer
silent = refl
