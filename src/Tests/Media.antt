-- ===== src/Tests/Media.antt =====
-- The RTP packet of the examples, arriving on the socket of a connection.
use spadia.Common.{
  ℕ, List, [], ◌∷◌, zero, suc, ◌∙◌, ◌==◌, true, ◌≡◌, refl, false, none, some, done, arith, count,
}
use spadia.Common.Texts.{Text, is_text}
use spadia.Stream.{as_it_stands, on_rtp}
use spadia.Stream.Sinks.{Op, join, leave, joined, run, on_rtp_once}
use spadia.Memory.{load}
use spadia.Rtcp.Compound.{is_rtcp}
use spadia.Session.Manager.Sent.{agreed}
use spadia.Connection.{Connection}
use spadia.Tests.{block_of}
use spadia.Tests.Rtp.{wire}
use spadia.Tests.Connection.{connection}

pub wire_not_rtcp : is_rtcp (block_of wire) 23 ≡ done false
unfolding is_rtcp load
wire_not_rtcp = refl

abbrev unready : Connection
unready = record connection { session_manager = none }

abbrev pub ready : Connection
ready = record connection { session_manager = some (agreed 1) }

-- The name of connection `n` is a text of `n` letters.
abbrev name : ℕ → Text
name zero = []
name (suc n) = b'a' ∷ name n

name_unique : (m n : ℕ) → is_text (name m) (name n) ≡ (m == n)
name_unique zero zero = refl
name_unique zero (suc n) = ground arith
name_unique (suc m) zero = ground arith
name_unique (suc m) (suc n) = name_unique m n ∙ ground arith

-- Connection 1 joins twice, connection 2 joins and leaves.
abbrev steps : List Op
steps = join 1 ∷ join 2 ∷ leave 2 ∷ join 1 ∷ []

on_rtp_once_example :
    count 1 (on_rtp (λ _. true) (run name steps (record { iteration = as_it_stands; sinks = [] })))
    ≡ 1
unfolding joined
on_rtp_once_example = on_rtp_once name name_unique as_it_stands steps (λ _. true) 1
