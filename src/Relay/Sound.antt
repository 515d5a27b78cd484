-- ===== src/Relay/Sound.antt =====
-- Nothing is freed twice: what each operation does to the blocks that it holds.
use spadia.Common.{
  Bool, false, ℕ, zero, suc, ◌+◌, ◌*◌, ◌==◌, ◌≤◌, ◌<◌, ◌≡◌, refl, ap, true, List, [], ◌∷◌, length,
  Option, none, some, if◌then◌else◌, count, arith, Yields,
}
use spadia.Relay.{
  Relay, Task, Request, is_in, remove, pick, alloc, release, async, send_data, send_new,
}

pub is_in-count : (a : ℕ) (xs : List ℕ) → 0 < count a xs → is_in a xs ≡ true
is_in-count a [] h = absurd (omega arith)
is_in-count a (x ∷ xs) h = ground (arith, is_in-count a xs)

pub count-remove :
    (a b : ℕ) (xs : List ℕ)
    → is_in b xs ≡ true
    → count a xs ≡ count a (remove b xs) + (if b == a then 1 else 0)
count-remove a b [] h = absurd (ground arith)
count-remove a b (x ∷ xs) h = ground (arith, count-remove a b xs)

pub length-remove :
    (b : ℕ) (xs : List ℕ) → is_in b xs ≡ true → length xs ≡ suc (length (remove b xs))
length-remove b [] h = absurd (ground arith)
length-remove b (x ∷ xs) h = ground (arith, length-remove b xs)

-- How often the lists that wait own a block.
abbrev pub total {ℓ} : {A : Type ℓ} → (A → ℕ) → List A → ℕ
total w [] = 0
total w (x ∷ xs) = w x + total w xs

abbrev pub is_at : ℕ → ℕ → ℕ
is_at a x = if x == a then 1 else 0

abbrev pub task_owns : ℕ → Task → ℕ
task_owns a t = is_at a t.handle + is_at a t.func + is_at a t.packet

abbrev pub request_owns : ℕ → Request → ℕ
request_owns a r = is_at a r.req + is_at a r.block

abbrev pub owned : ℕ → Relay → ℕ
owned a s =
    total (task_owns a) s.tasks + total (is_at a) s.closing + total (request_owns a) s.requests

-- The blocks that what waits will free.
abbrev pub pending : Relay → ℕ
pending s = 3 * length s.tasks + length s.closing + 2 * length s.requests

-- What `pick` takes out.
abbrev pub IsPick {ℓ} : {A : Type ℓ} → List A → Option (A × List A) → Type ℓ
IsPick xs none = Unit
IsPick xs (some (x, rest)) =
    (length xs ≡ suc (length rest)) × ((w : _ → ℕ) → total w xs ≡ w x + total w rest)

IsPick-later {ℓ} :
    {A : Type ℓ} (x : A) (xs : List A) (o : Option (A × List A))
    → IsPick xs o
    → IsPick (x ∷ xs) (elim o [ none ↦ none | some (y, ys) ↦ some (y, x ∷ ys) ])
IsPick-later x xs none h = tt
IsPick-later x xs (some (y, ys)) (longer, same) = (ap suc longer, λ w. omega (arith, same w))

pub pick-IsPick {ℓ} : {A : Type ℓ} (k : ℕ) (xs : List A) → IsPick xs (pick k xs)
pick-IsPick k [] = tt
pick-IsPick zero (x ∷ xs) = (refl, λ w. refl)
pick-IsPick (suc k) (x ∷ xs) = IsPick-later x xs (pick k xs) (pick-IsPick k xs)

-- Beside what waits, the running code owns the blocks of `hand`, and `n` blocks are owned by nobody.
pub record Sound (n : ℕ) (hand : List ℕ) (s : Relay) : Type 0 where
  pub live_owned : (a : ℕ) → owned a s + count a hand ≤ count a s.live
  pub live_once : (a : ℕ) → count a s.live ≤ 1
  pub fresh : (a : ℕ) → s.next ≤ a → count a s.live ≡ 0
  pub balance : length s.live ≡ pending s + length hand + n

module _ {n : ℕ} {hand : List ℕ} where
  pub alloc-Sound : (s : Relay) → Sound n hand s → Sound n (s.next ∷ hand) (alloc s)
  unfolding alloc
  alloc-Sound s h = record {
    live_owned = λ a. ground (arith, h.live_owned a);
    live_once = λ a. ground (arith, h.live_once a, h.fresh a);
    fresh = λ a above. ground (arith, h.fresh a);
    balance = omega (arith, h.balance);
  }

  pub release-Sound :
      (b : ℕ) (s : Relay) → Sound n (b ∷ hand) s → Yields (Sound n hand) (release b s)
  unfolding release
  release-Sound b s h =
      let found : is_in b s.live ≡ true = is_in-count b s.live (ground (arith, h.live_owned b)) in
      rw found (record {
        live_owned = λ a. ground (arith, h.live_owned a, count-remove a b s.live found);
        live_once = λ a. omega (arith, h.live_once a, count-remove a b s.live found);
        fresh = λ a above. omega (arith, h.fresh a above, count-remove a b s.live found);
        balance = omega (arith, h.balance, length-remove b s.live found);
      })

  pub send_data-Sound :
      (b : ℕ) (s : Relay) → Sound n (b ∷ hand) s → Sound n hand (send_data true b s)
  unfolding send_data alloc
  send_data-Sound b s h = record {
    live_owned = λ a. ground (arith, h.live_owned a);
    live_once = λ a. ground (arith, h.live_once a, h.fresh a);
    fresh = λ a above. ground (arith, h.fresh a);
    balance = omega (arith, h.balance);
  }

  pub async-Sound : (b : ℕ) (s : Relay) → Sound n (b ∷ hand) s → Sound n hand (async b s)
  unfolding async alloc
  async-Sound b s h = record {
    live_owned = λ a. ground (arith, h.live_owned a);
    live_once = λ a. ground (arith, h.live_once a, h.fresh a);
    fresh = λ a above. ground (arith, h.fresh a);
    balance = omega (arith, h.balance);
  }

  -- A block that nobody will free.
  pub leak-Sound : (b : ℕ) (s : Relay) → Sound n (b ∷ hand) s → Sound (suc n) hand s
  leak-Sound b s h = record {
    live_owned = λ a. ground (arith, h.live_owned a);
    live_once = h.live_once;
    fresh = h.fresh;
    balance = omega (arith, h.balance);
  }

  pub Sound-same : {m : ℕ} {s : Relay} → m ≡ n → Sound n hand s → Sound m hand s
  Sound-same e h = record {
    live_owned = h.live_owned;
    live_once = h.live_once;
    fresh = h.fresh;
    balance = omega (arith, h.balance, e);
  }

-- Sends that libuv refused, `limit` at most, have left two blocks each that nobody will free.
pub record Lossy (limit n : ℕ) (hand : List ℕ) (s : Relay) : Type 0 where
  pub lost : ℕ
  pub few : lost ≤ limit
  pub sound : Sound (2 * lost + n) hand s

module _ {n : ℕ} {hand : List ℕ} where
  pub Sound-Lossy : (limit : ℕ) (s : Relay) → Sound n hand s → Lossy limit n hand s
  Sound-Lossy limit s h = record { lost = 0; few = omega arith; sound = Sound-same (omega arith) h }

  pub send_data-Lossy :
      (accepted : Bool) (b : ℕ) (s : Relay)
      → Sound n (b ∷ hand) s
      → Lossy (if accepted then 0 else 1) n hand (send_data accepted b s)
  unfolding send_data
  send_data-Lossy true b s h = Sound-Lossy 0 _ (send_data-Sound b s h)
  send_data-Lossy false b s h = record {
    lost = 1;
    few = omega arith;
    sound =
        Sound-same (omega arith) (leak-Sound b _ (leak-Sound s.next (alloc s) (alloc-Sound s h)));
  }

  pub send_new-Lossy :
      (accepted : Bool) (s : Relay)
      → Sound n hand s
      → Lossy (if accepted then 0 else 1) n hand (send_new accepted s)
  unfolding send_new
  send_new-Lossy accepted s h = send_data-Lossy accepted s.next (alloc s) (alloc-Sound s h)
