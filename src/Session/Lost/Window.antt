-- ===== src/Session/Lost/Window.antt =====
-- Which sequence numbers the table holds for missing, number by number.
use spadia.Common.{
  ℕ, zero, suc, ◌+◌, ◌-◌, ◌%◌, ◌^◌, ◌≤◌, ◌<◌, ◌≡◌, ◌≢◌, refl, inl, inr, Bool, true, false, not,
  ◌&&◌, max, ltb, leb, ◌==◌, if◌then◌else◌, u32, length, set, get_or-set_self, get_or-set_ne,
  is_pos, arith, done, Yields, Yields-done, Bool-cases, lt→ltb, le→leb, ==_refl, ne→==, ==→eq,
  ==-false→ne, ◌∙◌, ap, subst, ltb→lt, leb→le, leb-false, leb-false→lt,
}
use native.Mathlib.Decide.{dec_lt}
use spadia.Rtp.Packet.{RtpPacket, ext_seq_num}
use spadia.Session.Lost.{
  table_size, PacketInfo, no_info, new_info, LostSession, is_count_in_total_lost, slot, skip_one,
  skip_loop, take_slot, answer, add_future, refreshed, add_refreshed, add_packet,
}
use spadia.Session.Lost.Count.{
  IsValid, skip_one-IsValid, skip_loop-IsValid, take_slot-IsValid, total_lost-le,
}

holds_missing : ℕ → PacketInfo → Bool
holds_missing q i = is_count_in_total_lost i && is_pos q i.ext_seq

-- The slot of `q` holds `q`, and holds it for missing.
pub missing : LostSession → ℕ → Bool
unfolding holds_missing
missing s q = holds_missing q (slot s (q % table_size))

-- A number whose slot is not written keeps its state.
missing-set_ne :
    (s : LostSession) (i q t n : ℕ) (v : PacketInfo)
    → i ≢ q % table_size
    → missing (record { packets = set s.packets i v; total_lost = t; next_seq = n }) q ≡ missing s q
unfolding missing
missing-set_ne s i q t n v h =
    ap (holds_missing q) (get_or-set_ne s.packets i (q % table_size) v no_info h)

missing-set_self :
    (s : LostSession) (q t n : ℕ) (v : PacketInfo)
    → length s.packets ≡ table_size
    → missing
        (record { packets = set s.packets (q % table_size) v; total_lost = t; next_seq = n })
        q
      ≡ holds_missing q v
unfolding missing
missing-set_self s q t n v full =
    ap (holds_missing q) (get_or-set_self s.packets (q % table_size) v no_info (omega arith))

holds_missing-skipped :
    (q now : ℕ) → holds_missing q (record (new_info q 0) { loss_at_time = now }) ≡ true
unfolding holds_missing is_count_in_total_lost
holds_missing-skipped q now = ground arith

holds_missing-arrived : (q p t : ℕ) → t ≢ 0 → holds_missing q (new_info p t) ≡ false
unfolding holds_missing is_count_in_total_lost
holds_missing-arrived q p t h = ground arith

skip_one-missing_self :
    (s : LostSession) (now : ℕ)
    → length s.packets ≡ table_size
    → missing (skip_one s now) s.next_seq ≡ true
unfolding skip_one
skip_one-missing_self s now full =
    missing-set_self s s.next_seq _ _ (record (new_info s.next_seq 0) { loss_at_time = now }) full
    ∙ holds_missing-skipped s.next_seq now

skip_one-missing_ne :
    (s : LostSession) (now q : ℕ)
    → s.next_seq % table_size ≢ q % table_size
    → missing (skip_one s now) q ≡ missing s q
unfolding skip_one
skip_one-missing_ne s now q h =
    missing-set_ne s (s.next_seq % table_size) q _ _
      (record (new_info s.next_seq 0) { loss_at_time = now }) h

-- After the loop the skipped numbers are missing, and the others of the window are as before.
missing-skip_loop :
    (fuel : ℕ) (s : LostSession) (ext_seq now q : ℕ)
    → IsValid s
    → ext_seq < 2 ^ 32
    → s.next_seq + fuel ≡ ext_seq
    → q < ext_seq
    → ext_seq ≤ q + table_size
    → missing (skip_loop fuel s ext_seq now) q ≡ (if leb s.next_seq q then true else missing s q)
unfolding skip_loop
missing-skip_loop zero s ext_seq now q v h e below near = ground arith
missing-skip_loop (suc fuel) s ext_seq now q v h e below near =
    let (v1, n1) = skip_one-IsValid s now v (omega arith) in
    rw (lt→ltb s.next_seq ext_seq (omega arith)) (
      missing-skip_loop fuel (skip_one s now) ext_seq now q v1 h (omega (arith, n1)) below near
      ∙ case (skip_one s now).next_seq n1 (dec_lt q s.next_seq) (dec_lt s.next_seq q))
  where
    here : s.next_seq ≡ q → missing (skip_one s now) q ≡ true
    here e = subst (λ n. missing (skip_one s now) n ≡ true) e (skip_one-missing_self s now v.full)

    case :
        (n : ℕ)
        → n ≡ s.next_seq + 1
        → Dec (q < s.next_seq)
        → Dec (s.next_seq < q)
        → (if leb n q then true else missing (skip_one s now) q)
          ≡ (if leb s.next_seq q then true else missing s q)
    case n m (yes old) _ = ground (arith, skip_one-missing_ne s now q (omega arith))
    case n m (no _) (yes new) = ground arith
    case n m (no old) (no new) = ground (arith, here (omega arith))

-- Taking a slot settles that number and no other of the window.
missing-take_slot :
    (s : LostSession) (ext_seq now q : ℕ)
    → length s.packets ≡ table_size
    → now ≢ 0
    → q < ext_seq + table_size
    → ext_seq < q + table_size
    → missing (take_slot s ext_seq now) q ≡ (not (q == ext_seq) && missing s q)
unfolding take_slot
missing-take_slot s ext_seq now q full h below near = elim (Bool-cases (q == ext_seq)) [
  | inl same ↦
      rw (same, ← ==→eq _ _ same)
        (missing-set_self s q _ _ (new_info q now) full ∙ holds_missing-arrived q q now h)
  | inr other ↦ rw other (
      missing-set_ne s (ext_seq % table_size) q _ _ (new_info ext_seq now)
        (λ e. absurd (==-false→ne q ext_seq other (omega arith))))
]

-- What is missing after a packet, number by number, as the protocol has it.
abbrev pub missing_after : LostSession → ℕ → ℕ → Bool
missing_after s ext_seq q = not (q == ext_seq) && (if leb s.next_seq q then true else missing s q)

module _ (s : LostSession) (ext_seq now q : ℕ) (v : IsValid s) (h : now ≢ 0) where
  abbrev Settles : ℕ × LostSession → Type 0
  Settles r =
      (r.1.next_seq ≡ max s.next_seq (ext_seq + 1)) × (missing r.1 q ≡ missing_after s ext_seq q)

  answer-Settles :
      (t : LostSession)
      → t.total_lost ≤ table_size
      → t.next_seq ≡ max s.next_seq (ext_seq + 1)
      → missing t q ≡ missing_after s ext_seq q
      → Yields Settles (answer t)
  unfolding answer
  answer-Settles t few n m = rw (le→leb t.total_lost table_size few) (n, m)

  after_loop :
      ext_seq < 2 ^ 32
      → s.next_seq ≤ ext_seq
      → q < ext_seq + 1
      → ext_seq + 1 ≤ q + table_size
      → (not (q == ext_seq) && missing (skip_loop (ext_seq - s.next_seq) s ext_seq now) q)
        ≡ missing_after s ext_seq q
  after_loop fits ahead below near = elim (Bool-cases (q == ext_seq)) [
    | inl same ↦ rw same
    | inr other ↦
        let ne = ==-false→ne q ext_seq other in
        rw other (
          missing-skip_loop (ext_seq - s.next_seq) s ext_seq now q v fits (omega arith)
            (omega arith) (omega arith))
  ]

  future-Settles :
      ext_seq + 1 < 2 ^ 32
      → s.next_seq ≤ ext_seq
      → q < ext_seq + 1
      → ext_seq + 1 ≤ q + table_size
      → Yields Settles (add_future s ext_seq now)
  unfolding add_future missing
  future-Settles fits ahead below near =
      let s1 = skip_loop (ext_seq - s.next_seq) s ext_seq now in
      let (v1, n1) =
        skip_loop-IsValid (ext_seq - s.next_seq) s ext_seq now v (omega arith) (omega arith) in
      rw (n1, ==_refl ext_seq)
        (answer-Settles (record (take_slot s1 ext_seq now) { next_seq = u32 (ext_seq + 1) })
          (total_lost-le _ (take_slot-IsValid s1 ext_seq now v1 h)) (omega arith)
          (missing-take_slot s1 ext_seq now q v1.full h (omega arith) (omega arith)
            ∙ after_loop (omega arith) ahead below near))

  old-Settles :
      ext_seq < s.next_seq
      → q < s.next_seq
      → s.next_seq ≤ q + table_size
      → s.next_seq ≤ ext_seq + table_size
      → Yields Settles (answer (take_slot s ext_seq now))
  old-Settles behind below near recent =
      answer-Settles (take_slot s ext_seq now)
        (total_lost-le _ (take_slot-IsValid s ext_seq now v h)) (omega (arith, next_seq-take_slot))
        (missing-take_slot s ext_seq now q v.full h (omega arith) (omega arith)
          ∙ rw (leb-false s.next_seq q (omega arith)))
    where
      next_seq-take_slot : (take_slot s ext_seq now).next_seq ≡ s.next_seq
      next_seq-take_slot = unfold take_slot in refl

  add_refreshed-Settles :
      ext_seq + 1 < 2 ^ 32
      → s.next_seq ≢ 0
      → s.next_seq ≤ ext_seq + table_size
      → q < max s.next_seq (ext_seq + 1)
      → max s.next_seq (ext_seq + 1) ≤ q + table_size
      → Yields Settles (add_refreshed s ext_seq now)
  unfolding add_refreshed
  add_refreshed-Settles fits started recent below window =
      rw (ne→== s.next_seq 0 started) (elim (Bool-cases (leb s.next_seq ext_seq)) [
        | inl ahead ↦
            let ahead' = leb→le _ _ ahead in
            rw ahead (future-Settles fits ahead' (omega arith) (omega arith))
        | inr behind ↦
            let behind' = leb-false→lt _ _ behind in
            rw behind (old-Settles behind' (omega arith) (omega arith) recent)
      ])

refreshed-near :
    (s : LostSession) (ext_seq : ℕ) → ext_seq < s.next_seq + 255 → refreshed s ext_seq ≡ s
unfolding refreshed
refreshed-near s ext_seq h = elim (Bool-cases (ltb s.next_seq ext_seq)) [
  | inr behind ↦ rw behind
  | inl ahead ↦
      let ahead' = ltb→lt _ _ ahead in
      rw (ahead, leb-false (table_size - 1) (ext_seq - s.next_seq) (omega arith))
]

-- One packet as the protocol sees it. On a started session, for a packet that is neither 255 or
-- more ahead nor older than the table, `AddPacket` returns; the next number expected is the
-- larger of the old one and the packet's successor; and a number of the window is missing then
-- exactly if it is not the packet's and was skipped now or was missing before.
pub add_packet-missing :
    (s : LostSession) (packet : RtpPacket) (q : ℕ)
    → IsValid s
    → packet.recv_time_ms ≢ 0
    → ext_seq_num packet + 1 < 2 ^ 32
    → s.next_seq ≢ 0
    → ext_seq_num packet < s.next_seq + 255
    → s.next_seq ≤ ext_seq_num packet + table_size
    → q < max s.next_seq (ext_seq_num packet + 1)
    → max s.next_seq (ext_seq_num packet + 1) ≤ q + table_size
    → (r : ℕ × LostSession) × (add_packet s packet ≡ done r)
      × (r.1.next_seq ≡ max s.next_seq (ext_seq_num packet + 1))
      × (missing r.1 q ≡ missing_after s (ext_seq_num packet) q)
unfolding add_packet
add_packet-missing s packet q v h fits started near recent below window =
    let p = ext_seq_num packet in
    let now = packet.recv_time_ms in
    let (r, e, settled) =
      Yields-done (Settles s p now q v h) (add_refreshed (refreshed s p) p now) (
        rw (refreshed-near s p near)
          (add_refreshed-Settles s p now q v h fits started recent below window)) in
    (r, e, settled.0, settled.1)
