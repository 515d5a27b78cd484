-- ===== src/Sdp/Answer/Medias.antt =====
-- The loop of `CreateAnswer` over the media of the offer.
use spadia.Common.{
  ℕ, ◌≡◌, refl, ◌∙◌, ap, ap₂, Bool, true, false, not, ◌&&◌, ◌||◌, inl, inr, Bool-cases, List, [],
  ◌∷◌, map, if◌then◌else◌, Option, none, some, u32, done, fault, exception, Yields, Yields-bind,
  arith,
}
use spadia.Common.Dict.{lookup}
use spadia.Common.Texts.{Text}
use spadia.Session.Manager.{transport_wide, Manager}
use spadia.Sdp.{sendonly, recvonly, Media, AnswerMedia, Stream, PeerConnection}
use spadia.Sdp.Answer.{
  is_some, sends, answer_direction, take_exts, stream_or_new, set_ssrc, get, remote_stream_of,
  answer_media, take_media, take_medias, tell_stream,
}
use spadia.Sdp.Answer.Extensions.{
  wanted, announces, IsWide, take_exts-wanted, take_exts-lookup, take_exts-IsWide,
}

get-some {ℓ} : {A : Type ℓ} (o : Option A) → is_some o ≡ true → (x : A) × (get o ≡ done x)
unfolding get
get-some none h = cc
get-some (some x) h = (x, refl)

get-none {ℓ} : {A : Type ℓ} (o : Option A) → is_some o ≡ false → get o ≡ fault exception
unfolding get
get-none none h = refl
get-none (some x) h = cc

pub tell_stream_lem :
    (has_callback : Bool) (stream : Option Stream)
    → tell_stream has_callback stream
      ≡ (if has_callback || not (is_some stream) then done tt else fault exception)
unfolding tell_stream
tell_stream_lem true none = refl
tell_stream_lem false none = refl
tell_stream_lem true (some stream) = refl
tell_stream_lem false (some stream) = refl

-- What a media leaves of the connection: a remote stream, if there was one or it sends.
abbrev pub Kept : PeerConnection → Bool → PeerConnection → Type 0
Kept pc sent pc1 =
    (is_some pc1.remote_stream ≡ (is_some pc.remote_stream || sent))
    × (pc1.has_callback ≡ pc.has_callback)

module _ {J : Type 0} where
  -- A media with the members that the code needs: user name and password, and an SSRC to send from.
  abbrev pub is_complete : Media J → Bool
  is_complete m =
      (is_some m.ssrc || not (sends m.direction)) && is_some m.ice_ufrag && is_some m.ice_pwd

  abbrev pub all_complete : List (Media J) → Bool
  all_complete [] = true
  all_complete (m ∷ ms) = is_complete m && all_complete ms

  abbrev pub some_sends : List (Media J) → Bool
  some_sends [] = false
  some_sends (m ∷ ms) = sends m.direction || some_sends ms

  -- An answer's media announces the id.
  abbrev pub announced : ℕ → List (AnswerMedia J) → Bool
  announced id [] = false
  announced id (a ∷ rest) = announces id a.ext || announced id rest

  module _ (msid cname : Text) where
    stream_complete :
        (stream : Option Stream) (m : Media J)
        → (is_some m.ssrc || not (sends m.direction)) ≡ true
        → (stream1 : Option Stream) × (remote_stream_of msid cname stream m ≡ done stream1)
          × (is_some stream1 ≡ (is_some stream || sends m.direction))
    unfolding remote_stream_of
    stream_complete stream m h = elim (Bool-cases (sends m.direction)) [
      | inl sent ↦
          let (id, e) = get-some m.ssrc (ground arith) in
          (some (set_ssrc (stream_or_new stream) m.kind (u32 id)), rw (sent, e), ground arith)
      | inr mute ↦ (stream, rw mute refl, ground arith)
    ]

    take_media_complete :
        (pc : PeerConnection) (manager : Manager) (m : Media J)
        → is_complete m ≡ true
        → (pc1 : PeerConnection) × (take_media msid cname pc manager m
            ≡ done (
              answer_media msid cname pc (take_exts manager m.ext).0 m,
              (take_exts manager m.ext).1,
              pc1,
            ))
          × Kept pc (sends m.direction) pc1
    unfolding take_media
    take_media_complete pc manager m h =
        let (stream1, e, set) = stream_complete pc.remote_stream m (ground arith) in
        let (ufrag, e1) = get-some m.ice_ufrag (ground arith) in
        let (pwd, e2) = get-some m.ice_pwd (ground arith) in
        (
          record pc { remote_stream = stream1; remote_username = ufrag; remote_password = pwd },
          rw (e, e1, e2),
          (set, refl),
        )

    stream_incomplete :
        (stream : Option Stream) (m : Media J)
        → (is_some m.ssrc || not (sends m.direction)) ≡ false
        → remote_stream_of msid cname stream m ≡ fault exception
    unfolding remote_stream_of
    stream_incomplete stream m h =
        let sent : sends m.direction ≡ true = ground arith in
        rw (sent, get-none m.ssrc (ground arith))

    take_media_incomplete :
        (pc : PeerConnection) (manager : Manager) (m : Media J)
        → is_complete m ≡ false
        → take_media msid cname pc manager m ≡ fault exception
    unfolding take_media
    take_media_incomplete pc manager m h =
        elim (Bool-cases (is_some m.ssrc || not (sends m.direction))) [
          | inr unset ↦ rw (stream_incomplete pc.remote_stream m unset)
          | inl ready ↦
              let (stream1, e, _) = stream_complete pc.remote_stream m ready in
              elim (Bool-cases (is_some m.ice_ufrag)) [
                | inr nameless ↦ rw (e, get-none m.ice_ufrag nameless)
                | inl named ↦
                    let (ufrag, e1) = get-some m.ice_ufrag named in
                    rw (e, e1, get-none m.ice_pwd (ground arith))
              ]
        ]

    -- What the loop over the media leaves: the answers' extensions are those of the offer that the
    -- code knows, the session has the ids that the answers announce besides its own, and the
    -- answers receive where the offer sends.
    abbrev pub Taken :
        PeerConnection
        → Manager
        → List (Media J)
        → List (AnswerMedia J) × Manager × PeerConnection
        → Type 0
    Taken pc manager offer (answers, manager1, pc1) =
        (map (λ a. a.ext) answers ≡ map (λ m. wanted m.ext) offer)
        × (map (λ a. a.direction) answers
            ≡ map (λ m. if sends m.direction then recvonly else sendonly) offer)
        × ((id : ℕ)
            → lookup id manager1.ext_map
              ≡ (if announced id answers then some transport_wide else lookup id manager.ext_map))
        × (IsWide manager → IsWide manager1)
        × Kept pc (some_sends offer) pc1

    pub take_medias-Taken :
        (pc : PeerConnection) (manager : Manager) (offer : List (Media J))
        → all_complete offer ≡ true
        → Yields (Taken pc manager offer) (take_medias msid cname pc manager offer)
    unfolding take_medias
    take_medias-Taken pc manager [] h = (refl, refl, λ id. refl, λ wide. wide, (ground arith, refl))
    take_medias-Taken pc manager (m ∷ ms) h =
        let (pc1, e, (set, callback)) = take_media_complete pc manager m (ground arith) in
        rw e (
          Yields-bind (Taken pc1 (take_exts manager m.ext).1 ms) _ _ _
            (take_medias-Taken pc1 (take_exts manager m.ext).1 ms (ground arith))
            (λ (answers, manager2, pc2) (exts, directions, found, wide, (set2, callback2)). (
              ap₂ (λ x xs. x ∷ xs) (take_exts-wanted manager m.ext) exts,
              ap (λ t. answer_direction m.direction ∷ t) directions,
              λ id. ground (arith, found id, take_exts-lookup manager m.ext id),
              λ h. wide (take_exts-IsWide manager m.ext h),
              (ground arith, callback2 ∙ callback),
            )))

    pub take_medias_incomplete :
        (pc : PeerConnection) (manager : Manager) (offer : List (Media J))
        → all_complete offer ≡ false
        → take_medias msid cname pc manager offer ≡ fault exception
    unfolding take_medias
    take_medias_incomplete pc manager [] h = cc
    take_medias_incomplete pc manager (m ∷ ms) h = elim (Bool-cases (is_complete m)) [
      | inr lacks ↦ rw (take_media_incomplete pc manager m lacks)
      | inl fine ↦
          let (pc1, e, _) = take_media_complete pc manager m fine in
          rw (e, take_medias_incomplete pc1 (take_exts manager m.ext).1 ms (ground arith))
    ]
