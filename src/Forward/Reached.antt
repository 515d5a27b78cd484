-- ===== src/Forward/Reached.antt =====
-- A watcher that has sent a Binding request is sent the packets of a stream.
use mathlib.Core.List.{Mem, mem-append_right, mem-cons_self}
use mathlib.Core.List.Perm
use spadia.Common.{
  none, ℕ, ◌%◌, ◌^◌, ◌≤◌, ◌<◌, ◌≡◌, ◌≢◌, ==_refl, ne→==, refl, ap, sym, ◌∙◌, subst, true, false,
  List, ◌∷◌, ◌++◌, map, length, some, done,
}
use spadia.Common.Dict.{lookup}
use spadia.Memory.{Buffer, ByteIo, IsBigEndian, IsBytes}
use spadia.Rtp.Packet.{RtpExtension, RtpPacket, new_packet}
use spadia.Rtp.Parse as RtpParse
use spadia.Rtp.Parse.Outcome.{HasHeader}
use spadia.Rtcp.Compound.{is_rtcp}
use spadia.Rtcp.Feedback.Single.{epoch}
use spadia.Session.Manager.{Manager, transport_wide, get_extension_id}
use spadia.Stun.Packet.{StunPacket}
use spadia.Stun.Binding.{IsBinding}
use spadia.Stun.Parse as StunParse
use spadia.Stun.Parse.{header_size}
use spadia.Stream.{on_rtp}
use spadia.Connection.{World}
use spadia.Connection.Answers.{on_socket_data_responds}
use spadia.Forward.{Peer, Dispatch, System, arrive, deliver, send_data, run_moves}
use spadia.Forward.Tasks.{IsAllocated, functions}
use spadia.Forward.Delivery.{forwarded, peers_after, fed_back, map-append, seen, arrive-IsDelivered}

module _ (io : ByteIo) (big : IsBigEndian io) (hmac : List ℕ → List ℕ → List ℕ)
    (full : (key message : List ℕ) → length (hmac key message) ≡ 20) (s : System)
    (watcher reachable : ℕ) (w1 : World) (b1 : Buffer) (size1 : ℕ) (request : IsBinding b1)
    (whole : header_size ≤ size1) (inside1 : size1 ≤ b1.size) (p1 : StunPacket)
    (taken : StunParse.parse io b1 size1 ≡ done (some p1)) where
  -- The system behind the request.
  abbrev asked : Buffer → System
  asked block = record s {
    peers = peers_after watcher reachable (seen w1.now_ms (s.peers watcher).connection) s;
    sent = record { from = watcher; to = some reachable; size = 52; data_block = block } ∷ s.sent;
    requests = none ∷ s.requests;
  }

  arrive-asked :
      (block : Buffer) × (arrive io hmac w1 watcher reachable b1 size1 s ≡ done (asked block))
  unfolding arrive deliver send_data
  arrive-asked =
      let (block, e) =
        on_socket_data_responds io hmac w1 (s.peers watcher).connection b1 size1 big request whole
          inside1 full p1 taken in
      (block, rw (e, ==_refl watcher) refl)

  module _ (pc address : ℕ) (apart : pc ≢ watcher) (before after : List ℕ)
      (told : on_rtp s.alive (s.peers pc).remote_stream ≡ before ++ watcher ∷ after) (w : World)
      (b : Buffer) (size : ℕ) (inside : size ≤ b.size) (good : HasHeader b size)
      (not_rtcp : is_rtcp b size ≡ done false) (bytes : IsBytes b) (m : Manager) (id : ℕ)
      (has : get_extension_id m transport_wide ≡ some id) (p : RtpPacket) (e : RtpExtension)
      (parsed : RtpParse.parse io (new_packet w.junk_packet w.now_ms) b size ≡ done (true, p))
      (found : lookup id p.exts ≡ some e) (later : 0 < w.now_us) where
    own_peer : (block : Buffer) → (asked block).peers pc ≡ s.peers pc
    own_peer block = rw (ne→== pc watcher apart) refl

    -- The watcher's copy, once the packet was taken.
    copy_of :
        (block : Buffer)
        → let c = seen w.now_ms ((asked block).peers pc).connection in
          forwarded (peers_after pc address c (asked block)) b size watcher
          ≡ record { from = watcher; to = some reachable; size = size; data_block = b }
    copy_of block = rw (ne→== watcher pc (λ same. apart (sym same)), ==_refl watcher) refl

    copied :
        (block : Buffer)
        → let after_packet =
            peers_after pc address
              (seen w.now_ms ((asked block).peers pc).connection)
              (asked block) in
          Mem
            (record { from = watcher; to = some reachable; size = size; data_block = b })
            (map
              (forwarded after_packet b size)
              (on_rtp s.alive ((asked block).peers pc).remote_stream))
    copied block =
        let after_packet =
          peers_after pc address (seen w.now_ms ((asked block).peers pc).connection)
            (asked block) in
        let send = forwarded after_packet b size in
        let d : Dispatch = record {
          from = watcher;
          to = some reachable;
          size = size;
          data_block = b;
        } in
        let copies : map send (on_rtp s.alive ((asked block).peers pc).remote_stream)
            ≡ map send before ++ send watcher ∷ map send after =
          ap (λ (x : Peer). map send (on_rtp s.alive x.remote_stream)) (own_peer block)
          ∙ ap (map send) told
          ∙ map-append send before (watcher ∷ after) in
        subst (λ xs. Mem d xs) (sym copies)
          (subst (λ x. Mem x (map send before ++ send watcher ∷ map send after)) (copy_of block)
            (mem-append_right (map send before) mem-cons_self))

    -- A watcher, other than the publisher, of a stream that has asked by a Binding request that `Parse`
    -- takes, whatever its credentials, is reached: an RTP packet of the publisher with the extension
    -- agreed on (in the epochs of even number) is taken, and where the functions that wait then run, in
    -- any order, before a request completes (`send_u` frees the data of its packet), and the packets
    -- that had waited have their data, the bytes that came in have been handed to libuv on the watcher's
    -- socket, for where its request came from.
    pub arrive_reaches :
        (s.peers pc).connection.session_manager ≡ some m
        → (s.peers pc).connection.has_remote_stream ≡ true
        → w.junk_count < 2 ^ 8
        → epoch w.now_us % 2 ≡ 0
        → IsAllocated s
        → (s1 : System) × (s2 : System) × (arrive io hmac w1 watcher reachable b1 size1 s ≡ done s1)
          × (arrive io hmac w pc address b size s1 ≡ done s2)
          × ((ks : List ℕ)
              → (t : System) × (run_moves (functions ks s2) s2 ≡ done t)
                × Mem
                    (record { from = watcher; to = some reachable; size = size; data_block = b })
                    t.sent)
    arrive_reaches session stream count_fits even allocated =
        let (block, answered) = arrive-asked in
        let s1 = asked block in
        let own = own_peer block in
        let (feedback, s2, e2, delivered, _, _) =
          arrive-IsDelivered io hmac w pc address s1 b size inside good not_rtcp big bytes m id has
            p e parsed found later (ap (λ (x : Peer). x.connection.session_manager) own ∙ session)
            (ap (λ (x : Peer). x.connection.has_remote_stream) own ∙ stream) count_fits even
            allocated in
        (
          s1,
          s2,
          answered,
          e2,
          λ ks.
              let (t, run, (_, sent)) = delivered ks in
              (
                t,
                run,
                (Perm.mem_iff sent).1 (
                    mem-append_right (fed_back pc address (some (24, feedback)) ++ s1.sent)
                      (mem-append_right _ (copied block))),
              ),
        )
