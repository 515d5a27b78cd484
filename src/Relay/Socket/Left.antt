-- ===== src/Relay/Socket/Left.antt =====
-- What a run on the shared socket leaves: blocks for good, and whether libuv kept a response.
use spadia.Common.{ℕ, Bool, true, false, not, ◌&&◌, ◌||◌, List, [], ◌∷◌}
use spadia.Server.{Answer, ignored, unknown_name, handed}
use spadia.Relay.{is_positive, is_zero}
use spadia.Relay.Kept.{keep}
use spadia.Relay.Socket.{Sending, refused, sent, queued, Datagram, Turn, receive, finish_send}

abbrev pub is_response : Answer → Bool
is_response ignored = false
is_response unknown_name = false
is_response (handed size block to) = true

-- Whether a response goes to libuv.
abbrev pub is_answered : Datagram → Bool
is_answered d = d.has_addr && (is_positive d.nread && d.has_data) && is_response d.answer

abbrev pub is_refused : Sending → Bool
is_refused refused = true
is_refused sent = false
is_refused queued = false

abbrev pub is_queued : Sending → Bool
is_queued refused = false
is_queued sent = false
is_queued queued = true

-- Whether libuv has kept a response, by now.
abbrev pub late_by : Turn → Bool → Bool
late_by (receive d) late = is_answered d && is_queued d.sending || late
late_by (finish_send k) late = late

abbrev pub is_late_run : List Turn → Bool → Bool
is_late_run [] late = late
is_late_run (t ∷ ts) late = is_late_run ts (late_by t late)

-- The blocks that a read leaves for good: its buffer, but where nothing was read and there is no
-- address, and a request that libuv refused.
abbrev pub left_by : Turn → ℕ → ℕ
left_by (receive d) n =
    keep (not (is_zero d.nread && not d.has_addr)) (keep (is_answered d && is_refused d.sending) n)
left_by (finish_send k) n = n

abbrev pub left : List Turn → ℕ → ℕ
left [] n = n
left (t ∷ ts) n = left ts (left_by t n)
