-- ===== src/Forward/Delivery.antt =====
-- From a datagram to the sinks: what is sent for an RTP packet that arrives, once what waits has run.
use mathlib.Core.List.{Perm}
use spadia.Common.{
  Option, All, ℕ, ◌+◌, ◌%◌, ◌^◌, ◌≤◌, ◌<◌, ◌≡◌, ◌==◌, ==_refl, refl, ap, ap₂, ◌∙◌, subst, true,
  false, List, [], ◌∷◌, ◌++◌, map, none, some, if◌then◌else◌, done,
}
use spadia.Common.Dict.{lookup}
use spadia.Memory.{Buffer, ByteIo, IsBigEndian, IsBytes, read16, read32}
use spadia.Rtp.Packet.{RtpExtension, RtpPacket, new_packet}
use spadia.Rtp.Parse as RtpParse
use spadia.Rtp.Parse.Outcome.{HasHeader}
use spadia.Rtcp.Compound.{is_rtcp}
use spadia.Rtcp.Feedback.Single.{epoch}
use spadia.Session.Manager.{Manager, Sent, transport_wide, get_extension_id}
use spadia.Connection.Media.{same_bytes, same_size, on_socket_data_feeds_back}
use spadia.Stream.{on_rtp}
use spadia.Connection.{Connection, World, took_rtp, on_socket_data}
use spadia.Forward.{
  Peer, Dispatch, System, send_data, send_feedback, on_media_data, deliver, arrive, run_moves, Task,
}
use spadia.Forward.Tasks.{resolve, IsAllocated, functions, functions-sent}
use spadia.Relay.{is_in}

-- The packet on its way to a sink: the bytes that came in.
abbrev pub forwarded : (ℕ → Peer) → Buffer → ℕ → ℕ → Dispatch
forwarded peers b size sink = record {
  from = sink;
  to = (peers sink).last_remote;
  size = size;
  data_block = b;
}

-- The request of a feedback.
abbrev pub back_request : Sent → List (Option ℕ)
back_request none = []
back_request (some x) = none ∷ []

-- The feedback, back to where the packet came from.
abbrev pub fed_back : ℕ → ℕ → Sent → List Dispatch
fed_back pc address none = []
fed_back pc address (some (size, block)) =
    record { from = pc; to = some address; size = size; data_block = block } ∷ []

pub map-append {ℓ κ} :
    {A : Type ℓ} {B : Type κ} (f : A → B) (xs ys : List A) → map f (xs ++ ys) ≡ map f xs ++ map f ys
map-append f [] ys = refl
map-append f (x ∷ xs) ys = ap (λ zs. f x ∷ zs) (map-append f xs ys)

map-on_media_data :
    (peers : ℕ → Peer) (p : RtpPacket) (number : ℕ) (sinks : List ℕ)
    → map (resolve peers) (on_media_data p number sinks)
      ≡ map (forwarded peers p.bytes p.size) sinks
map-on_media_data peers p number [] = refl
map-on_media_data peers p number (x ∷ xs) =
    ap (λ zs. forwarded peers p.bytes p.size x ∷ zs) (map-on_media_data peers p number xs)

abbrev HasData : List ℕ → List Task → Type 0
HasData freed tasks = All (λ (t : Task). is_in t.number freed ≡ false) tasks

on_media_data-HasData :
    (freed : List ℕ) (ts : List Task) (p : RtpPacket) (number : ℕ) (sinks : List ℕ)
    → HasData freed ts
    → is_in number freed ≡ false
    → HasData freed (ts ++ on_media_data p number sinks)
on_media_data-HasData freed (t ∷ ts) p number sinks (here, h) own =
    (here, on_media_data-HasData freed ts p number sinks h own)
on_media_data-HasData freed [] p number [] h own = tt
on_media_data-HasData freed [] p number (x ∷ xs) h own =
    (own, on_media_data-HasData freed [] p number xs tt own)

module _ (pc address : ℕ) (c : Connection) (s : System) where
  -- The connections behind the first assignments of `OnSocketData`.
  abbrev pub peers_after : ℕ → Peer
  peers_after x =
      if x == pc
      then record (s.peers pc) { connection = c; last_remote = some address }
      else s.peers x

  pub own_address : (peers_after pc).last_remote ≡ some address
  own_address = rw (==_refl pc)

  own_stream : (peers_after pc).remote_stream ≡ (s.peers pc).remote_stream
  own_stream = rw (==_refl pc)

  abbrev sinks : List ℕ
  sinks = on_rtp s.alive (s.peers pc).remote_stream

  -- The system behind a packet that was taken.
  abbrev pub taken_in : Sent → RtpPacket → System
  taken_in sent p = record s {
    peers = peers_after;
    tasks = s.tasks ++ on_media_data p s.next_packet sinks;
    next_packet = s.next_packet + 1;
    requests = back_request sent ++ s.requests;
    sent = fed_back pc address sent ++ s.sent;
  }

  deliver-rtp :
      (sent : Sent) (p : RtpPacket)
      → deliver pc (took_rtp sent p) (record s { peers = peers_after }) ≡ taken_in sent p
  unfolding deliver send_feedback send_data
  deliver-rtp none p = rw (own_stream)
  deliver-rtp (some (size, block)) p = rw (own_address, own_stream)

  -- Nothing waits any more, and beside what was sent before, the feedback went to the sender, each
  -- function that waited before was run, and every sink was sent the bytes that came in.
  abbrev pub IsDelivered : Buffer → ℕ → Sent → System → Type 0
  IsDelivered b size sent t =
      (t.tasks ≡ [])
      × Perm t.sent (
          (fed_back pc address sent ++ s.sent)
          ++ (map (resolve peers_after) s.tasks ++ map (forwarded peers_after b size) sinks))

  pub taken_in-IsDelivered :
      (b : Buffer) (size : ℕ) (sent : Sent) (p : RtpPacket)
      → p.bytes ≡ b
      → p.size ≡ size
      → IsAllocated s
      → (ks : List ℕ)
      → (t : System) × (run_moves (functions ks (taken_in sent p)) (taken_in sent p) ≡ done t)
        × IsDelivered b size sent t
  taken_in-IsDelivered b size sent p same_bytes same_size (allocated, own) ks =
      let (t, run, rest, all_sent) =
        functions-sent ks (taken_in sent p)
          (on_media_data-HasData s.freed s.tasks p s.next_packet sinks allocated own) in
      let last =
        map-append (resolve peers_after) s.tasks (on_media_data p s.next_packet sinks)
        ∙ ap (λ xs. map (resolve peers_after) s.tasks ++ xs)
            (map-on_media_data peers_after p s.next_packet sinks
              ∙ ap₂ (λ bytes n. map (forwarded peers_after bytes n) sinks) same_bytes same_size) in
      (
        t,
        run,
        (
          rest,
          subst (λ xs. Perm t.sent ((fed_back pc address sent ++ s.sent) ++ xs)) last all_sent,
        ),
      )

  pub arrive-taken :
      (io : ByteIo) (hmac : List ℕ → List ℕ → List ℕ) (w : World) (b : Buffer) (size : ℕ)
      (sent : Sent) (p : RtpPacket)
      → on_socket_data io hmac w (s.peers pc).connection b size ≡ done (c, took_rtp sent p)
      → arrive io hmac w pc address b size s ≡ done (taken_in sent p)
  unfolding arrive
  arrive-taken io hmac w b size sent p e = rw e (ap done (deliver-rtp sent p))

-- A connection that was sent a datagram at `now`.
abbrev pub seen : ℕ → Connection → Connection
seen now c = record c { last_packet_recv_time_ms = now }

module _ (io : ByteIo) (hmac : List ℕ → List ℕ → List ℕ) (w : World) (pc address : ℕ) (s : System)
    (b : Buffer) (size : ℕ) (inside : size ≤ b.size) (good : HasHeader b size)
    (not_rtcp : is_rtcp b size ≡ done false) (big : IsBigEndian io) (bytes : IsBytes b)
    (m : Manager) (id : ℕ) (has : get_extension_id m transport_wide ≡ some id) (p : RtpPacket)
    (e : RtpExtension)
    (parsed : RtpParse.parse io (new_packet w.junk_packet w.now_ms) b size ≡ done (true, p))
    (found : lookup id p.exts ≡ some e) (later : 0 < w.now_us) where
  -- From socket to sockets. On a connection that has agreed on the transport-wide extension and has a
  -- remote stream, an RTP packet with the extension is taken (in the epochs of even number). Where the
  -- functions that wait then run, in any order, before a request completes (`send_u` frees the data of
  -- its packet), and the packets that had waited have their data, no freed data is read, and in the end
  -- nothing waits and libuv has been handed: the feedback, with SSRC and number of the packet, for
  -- where the packet came from; what had waited; and by each living sink of the stream, once for each
  -- time that it is told, the bytes that came in, on its own socket for where its own last datagram
  -- came from.
  pub arrive-IsDelivered :
      (s.peers pc).connection.session_manager ≡ some m
      → (s.peers pc).connection.has_remote_stream ≡ true
      → w.junk_count < 2 ^ 8
      → epoch w.now_us % 2 ≡ 0
      → IsAllocated s
      → (block : Buffer) × (s1 : System) × (arrive io hmac w pc address b size s ≡ done s1)
        × ((ks : List ℕ)
            → (t : System) × (run_moves (functions ks s1) s1 ≡ done t)
              × IsDelivered pc address
                  (seen w.now_ms (s.peers pc).connection)
                  s
                  b
                  size
                  (some (24, block))
                  t)
        × (read32 io block 8 ≡ done p.ssrc)
        × (read16 io block 12
            ≡ done (io.read_u16 (p.bytes.bytes e.offset) (p.bytes.bytes (e.offset + 1))))
  arrive-IsDelivered session stream count_fits even allocated =
      let c = (s.peers pc).connection in
      let (block, handled, (_, _, _, ssrc, num, _, _, _)) =
        on_socket_data_feeds_back io hmac w c b size inside good not_rtcp big bytes m id has p e
          parsed found later session stream count_fits even in
      (
        block,
        taken_in pc address (seen w.now_ms (s.peers pc).connection) s (some (24, block)) p,
        arrive-taken pc address (seen w.now_ms (s.peers pc).connection) s io hmac w b size
            (some (24, block)) p handled,
        taken_in-IsDelivered pc address (seen w.now_ms (s.peers pc).connection) s b size
            (some (24, block)) p
            (same_bytes io hmac w c b size inside good not_rtcp big bytes m id has p e parsed found
              later)
            (same_size io hmac w c b size inside good not_rtcp big bytes m id has p e parsed found
              later)
            allocated,
        ssrc,
        num,
      )
