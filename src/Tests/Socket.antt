-- ===== src/Tests/Socket.antt =====
-- The shared socket with one user: a request that is answered, and a name that nobody has.
use spadia.Common.{none, ℕ, ◌≡◌, refl, pos, true, List, [], ◌∷◌, ◌++◌, done, fault, out_of_bounds}
use spadia.Memory.{Buffer}
use spadia.Server.{unknown_name, handed}
use spadia.Relay.{alloc, release}
use spadia.Relay.Socket.{
  Sending, sent, queued, Datagram, new_serving, Turn, receive, finish_send, run_turns, turn, read_s,
  on_answer, uv_udp_send, free, complete_send, read_late,
}
use spadia.Relay.Socket.Ends.{finish_all, run_turns-Settles}

abbrev response : Buffer
response = record { size = 52; bytes = λ _. 0 }

abbrev request_read : Sending → Datagram
request_read w = record {
  nread = pos 29;
  has_addr = true;
  has_data = true;
  answer = handed 52 response none;
  sending = w;
}

abbrev stranger_read : Datagram
stranger_read = record (request_read sent) { answer = unknown_name }

abbrev prompt_turns : List Turn
prompt_turns = receive (request_read sent) ∷ receive stranger_read ∷ finish_send 0 ∷ []

-- Both receive buffers stay.
prompt_run :
    run_turns prompt_turns new_serving
    ≡ done (record {
      heap = record { next = 5; live = 4 ∷ 1 ∷ []; tasks = []; closing = []; requests = [] };
      sends = [];
    })
unfolding run_turns turn read_s on_answer uv_udp_send free complete_send read_late alloc release
prompt_run = refl

run_turns-Settles_example :
    (k : ℕ) × (run_turns (receive (request_read queued) ∷ prompt_turns ++ finish_all k) new_serving
      ≡ fault out_of_bounds)
run_turns-Settles_example = run_turns-Settles (receive (request_read queued) ∷ prompt_turns)
