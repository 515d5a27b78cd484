-- ===== src/Relay/Socket/Held.antt =====
-- The blocks of the shared socket: each waiting request owns itself and nothing else, and what libuv
-- has yet to read of a response that it kept is not allocated.
use spadia.Common.{
  ℕ, ◌+◌, ◌≤◌, ◌<◌, ◌≡◌, ◌==◌, refl, subst, Bool, true, false, ◌&&◌, ◌||◌, List, [], ◌∷◌, ◌++◌,
  length, length-append, count, if◌then◌else◌, arith, Yields, Yields-bind,
}
use spadia.Relay.{Relay, is_in, remove, alloc, release}
use spadia.Relay.Sound.{
  pending, total, is_at, is_in-count, count-remove, Sound, alloc-Sound, release-Sound, leak-Sound,
}
use spadia.Relay.Kept.{keep}
use spadia.Relay.Socket.Left.{is_response, is_refused, is_queued}
use spadia.Server.{Answer, ignored, unknown_name, handed}
use spadia.Relay.Socket.{
  Sending, refused, sent, queued, Send, Serving, free, uv_udp_send, on_answer,
}

abbrev pub reqs : List Send → List ℕ
reqs [] = []
reqs (w ∷ ws) = w.req ∷ reqs ws

abbrev pub late_count : Send → ℕ
late_count w = if w.is_late then 1 else 0

abbrev pub late_at : ℕ → Send → ℕ
late_at a w = if w.is_late then is_at a w.block else 0

-- Whether a response that libuv kept waits.
abbrev pub Waits : Bool → List Send → Type 0
Waits true sends = 0 < total late_count sends
Waits false sends = total late_count sends ≡ 0

Waits-sent :
    (late : Bool) (ws : List Send) (w : Send)
    → w.is_late ≡ false
    → Waits late ws
    → Waits late (w ∷ ws)
Waits-sent true ws w e h = ground (arith, e, h)
Waits-sent false ws w e h = ground (arith, e, h)

-- The running code owns the blocks of `hand`, and nobody owns `n` blocks.
pub record Held (late : Bool) (n : ℕ) (hand : List ℕ) (s : Serving) : Type 0 where
  pub waits : Waits late s.sends
  pub idle : pending s.heap ≡ 0
  pub sound : Sound n (hand ++ reqs s.sends) s.heap
  pub gone : (a : ℕ) → 0 < total (late_at a) s.sends → count a s.heap.live ≡ 0
  pub old : (a : ℕ) → 0 < total (late_at a) s.sends → a < s.heap.next

pub Sound-same :
    (n : ℕ) (xs ys : List ℕ) (s : Relay)
    → ((a : ℕ) → count a xs ≡ count a ys)
    → length xs ≡ length ys
    → Sound n xs s
    → Sound n ys s
Sound-same n xs ys s same long h = record {
  live_owned = λ a. omega (arith, h.live_owned a, same a);
  live_once = h.live_once;
  fresh = h.fresh;
  balance = omega (arith, h.balance, long);
}

-- What `release` leaves of the block and of the others.
abbrev Released : ℕ → ℕ → List ℕ → Relay → Relay → Type 0
Released n b hand s t =
    Sound n hand t
    × (count b t.live ≡ 0)
    × ((a : ℕ) → count a t.live ≤ count a s.live)
    × (t.next ≡ s.next)
    × (pending t ≡ pending s)

release-Released :
    (n b : ℕ) (hand : List ℕ) (s : Relay)
    → Sound n (b ∷ hand) s
    → Yields (Released n b hand s) (release b s)
unfolding release
release-Released n b hand s h =
    let found : is_in b s.live ≡ true = is_in-count b s.live (ground (arith, h.live_owned b)) in
    let after = release-Sound b s h in
    let fewer : (a : ℕ) → count a s.live ≡ count a (remove b s.live) + (if b == a then 1 else 0) =
      λ a. count-remove a b s.live found in
    rw found (
      rw (release, found) at after,
      ground (arith, h.live_once b, fewer b),
      (λ a. omega (arith, fewer a)),
      refl,
      refl,
    )

count-moved : (x : ℕ) (xs ys : List ℕ) (a : ℕ) → count a (x ∷ xs ++ ys) ≡ count a (xs ++ x ∷ ys)
count-moved x [] ys a = refl
count-moved x (y ∷ xs) ys a = ground (arith, count-moved x xs ys a)

length-moved : (x : ℕ) (xs ys : List ℕ) → length (x ∷ xs ++ ys) ≡ length (xs ++ x ∷ ys)
length-moved x xs ys = omega (arith, length-append xs ys, length-append xs (x ∷ ys))

module _ {late : Bool} {n : ℕ} {hand : List ℕ} where
  pub free-Held :
      (b : ℕ) (s : Serving) → Held late n (b ∷ hand) s → Yields (Held late n hand) (free b s)
  unfolding free
  free-Held b s h =
      Yields-bind (Released n b (hand ++ reqs s.sends) s.heap) (Held late n hand) (release b s.heap)
        _ (release-Released n b (hand ++ reqs s.sends) s.heap h.sound)
        (λ t (after, none_left, fewer, same, idle). record {
          waits = h.waits;
          idle = omega (arith, h.idle, idle);
          sound = after;
          gone = λ a l. omega (arith, h.gone a l, fewer a);
          old = λ a l. omega (arith, h.old a l, same);
        })

  -- The state behind `OnData`, where the release of the response has left the blocks of `t`.
  sending-Held :
      (w : Sending) (s : Serving) (t : Relay)
      → Held late n hand s
      → Released n s.heap.next ((s.heap.next + 1) ∷ hand ++ reqs s.sends) (alloc (alloc s.heap)) t
      → Held
          (is_queued w || late)
          (keep (is_refused w) n)
          hand
          (record (uv_udp_send w (s.heap.next + 1) s.heap.next s) { heap = t })
  unfolding uv_udp_send alloc
  sending-Held refused s t h (after, none_left, fewer, same, idle) = record {
    waits = h.waits;
    idle = omega (arith, h.idle, idle);
    sound = leak-Sound (s.heap.next + 1) t after;
    gone = λ a l. ground (arith, h.gone a l, h.old a l, fewer a);
    old = λ a l. omega (arith, h.old a l, same);
  }
  sending-Held sent s t h (after, none_left, fewer, same, idle) = record {
    waits = Waits-sent late s.sends _ refl h.waits;
    idle = omega (arith, h.idle, idle);
    sound =
        Sound-same n _ _ _ (count-moved (s.heap.next + 1) hand (reqs s.sends))
          (length-moved (s.heap.next + 1) hand (reqs s.sends)) after;
    gone = λ a l. ground (arith, h.gone a (omega (arith, l)), h.old a (omega (arith, l)), fewer a);
    old = λ a l. omega (arith, h.old a (omega (arith, l)), same);
  }
  sending-Held queued s t h (after, none_left, fewer, same, idle) = record {
    waits = omega arith;
    idle = omega (arith, h.idle, idle);
    sound =
        Sound-same n _ _ _ (count-moved (s.heap.next + 1) hand (reqs s.sends))
          (length-moved (s.heap.next + 1) hand (reqs s.sends)) after;
    gone = λ a l. ground (arith, h.gone a, h.old a, fewer a, none_left);
    old = λ a l. ground (arith, h.old a, same);
  }

  -- The blocks of a response and of its request, before the one is freed.
  ready :
      (s : Serving)
      → Held late n hand s
      → Sound n (s.heap.next ∷ (s.heap.next + 1) ∷ hand ++ reqs s.sends) (alloc (alloc s.heap))
  unfolding alloc
  ready s h =
      Sound-same n _ _ _ (λ a. ground arith) refl
        (alloc-Sound (alloc s.heap) (alloc-Sound s.heap h.sound))

  response-Held :
      (w : Sending) (s : Serving) (sends : List Send)
      → uv_udp_send w (s.heap.next + 1) s.heap.next s ≡ record s { sends = sends }
      → Held late n hand s
      → Yields
          (Held (is_queued w || late) (keep (is_refused w) n) hand)
          (free s.heap.next (record { heap = alloc (alloc s.heap); sends = sends }))
  unfolding free
  response-Held w s sends e h =
      Yields-bind
        (Released n s.heap.next ((s.heap.next + 1) ∷ hand ++ reqs s.sends) (alloc (alloc s.heap)))
        (Held (is_queued w || late) (keep (is_refused w) n) hand)
        (release s.heap.next (alloc (alloc s.heap))) _
        (release-Released n s.heap.next ((s.heap.next + 1) ∷ hand ++ reqs s.sends)
          (alloc (alloc s.heap)) (ready s h))
        (λ t after.
          subst
            (λ (x : Serving).
              Held (is_queued w || late) (keep (is_refused w) n) hand (record x { heap = t }))
            e (sending-Held w s t h after))

  -- What `OnData` does with the blocks.
  pub on_answer-Held :
      (a : Answer) (w : Sending) (s : Serving)
      → Held late n hand s
      → Yields
          (Held
            (is_response a && is_queued w || late)
            (keep (is_response a && is_refused w) n)
            hand)
          (on_answer a w s)
  unfolding on_answer uv_udp_send alloc
  on_answer-Held ignored w s h = h
  on_answer-Held unknown_name w s h = h
  on_answer-Held (handed size block to) refused s h = response-Held refused s _ refl h
  on_answer-Held (handed size block to) sent s h = response-Held sent s _ refl h
  on_answer-Held (handed size block to) queued s h = response-Held queued s _ refl h
