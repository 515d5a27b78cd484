-- ===== src/Sdp/Answer/Agreed.antt =====
-- What `CreateAnswer` has agreed on when it returns, and which offers it throws on.
use spadia.Common.{
  if◌then◌else◌, ℕ, ◌≡◌, refl, Bool, true, false, not, ◌&&◌, ◌||◌, inl, inr, Bool-cases, List, map,
  if◌then◌else◌, Option, none, some, fault, exception, Yields, Yields-bind, Yields-done, arith,
}
use spadia.Common.Dict.{lookup}
use spadia.Common.Texts.{Text}
use spadia.Server.{Server}
use spadia.Session.Manager.{transport_wide, Manager, new_manager, get_extension_id}
use spadia.Sdp.{sendonly, recvonly, Media, AnswerMedia, PeerConnection}
use spadia.Sdp.Answer.{is_some, sends, msid_of, negotiate}
use spadia.Sdp.Answer.Extensions.{wanted, Finds, get_extension_id-Finds}
use spadia.Sdp.Answer.Medias.{
  tell_stream_lem, all_complete, some_sends, announced, Taken, take_medias-Taken,
  take_medias_incomplete,
}

module _ {J : Type 0} where
  -- The session finds an id that some media of the answer announces, and where it finds none, none
  -- is announced.
  abbrev pub Agreed : Option ℕ → List (AnswerMedia J) → Type 0
  Agreed none answers = (id : ℕ) → announced id answers ≡ false
  Agreed (some id) answers = announced id answers ≡ true

  Finds-Agreed :
      (manager : Manager) (found : Option ℕ) (answers : List (AnswerMedia J))
      → Finds manager found
      → ((id : ℕ)
          → lookup id manager.ext_map
            ≡ (if announced id answers then some transport_wide else none))
      → Agreed found answers
  Finds-Agreed manager none answers h same = λ id. ground (arith, h id, same id)
  Finds-Agreed manager (some id) answers h same = ground (arith, same id)

  -- A stream to tell has a listener.
  abbrev pub is_heard : PeerConnection → List (Media J) → Bool
  is_heard pc offer = pc.has_callback || not (is_some pc.remote_stream || some_sends offer)

  module _ (stream_id cname : Text) (server : Server) (this : ℕ) (pc : PeerConnection)
      (offer : List (Media J)) where
    -- What holds of an answer, and of the connection when `CreateAnswer` has returned.
    abbrev pub Answers : List (AnswerMedia J) × PeerConnection × Server → Type 0
    Answers (answers, pc1, server1) =
        (manager : Manager) × (pc1.session_manager ≡ some manager)
        × (map (λ a. a.ext) answers ≡ map (λ m. wanted m.ext) offer)
        × (map (λ a. a.direction) answers
            ≡ map (λ m. if sends m.direction then recvonly else sendonly) offer)
        × Agreed (get_extension_id manager transport_wide) answers
        × (is_some pc1.remote_stream ≡ (is_some pc.remote_stream || some_sends offer))

    -- The answer to an offer whose every media has a user name, a password and, to send, an SSRC, on
    -- a connection with a listener or without a stream to tell it: each media announces the
    -- transport-wide extensions that were offered for it and no other, and receives where the offer
    -- sends; the new session finds an id that was announced, if one was; and there is a remote stream
    -- if there was one or the offer sends.
    pub negotiate-Answers :
        all_complete offer ≡ true
        → is_heard pc offer ≡ true
        → Yields Answers (negotiate stream_id cname server this pc offer)
    unfolding negotiate lookup
    negotiate-Answers complete heard =
        Yields-bind (Taken (msid_of stream_id pc.local_stream) cname pc new_manager offer) Answers _
          _
          (take_medias-Taken (msid_of stream_id pc.local_stream) cname pc new_manager offer
            complete)
          (λ (answers, manager, pc1) (exts, directions, found, wide, (set, callback)).
            let told : (pc1.has_callback || not (is_some pc1.remote_stream)) ≡ true =
              rw (callback, set) heard in
            rw (tell_stream_lem pc1.has_callback pc1.remote_stream, told)
              (
                manager,
                refl,
                exts,
                directions,
                Finds-Agreed manager _ answers (get_extension_id-Finds manager (wide tt)) found,
                set,
              ))

    -- On every other offer `CreateAnswer` throws.
    pub negotiate_throws :
        (all_complete offer && is_heard pc offer) ≡ false
        → negotiate stream_id cname server this pc offer ≡ fault exception
    unfolding negotiate lookup
    negotiate_throws h = elim (Bool-cases (all_complete offer)) [
      | inr lacks ↦ rw (
          take_medias_incomplete (msid_of stream_id pc.local_stream) cname pc new_manager offer
            lacks)
      | inl complete ↦
          let ((answers, manager, pc1), e, (_, _, _, _, (set, callback))) =
            Yields-done (Taken (msid_of stream_id pc.local_stream) cname pc new_manager offer) _ (
              take_medias-Taken (msid_of stream_id pc.local_stream) cname pc new_manager offer
                complete) in
          let untold : (pc1.has_callback || not (is_some pc1.remote_stream)) ≡ false =
            rw (callback, set) (ground arith) in
          rw (e, tell_stream_lem pc1.has_callback pc1.remote_stream, untold)
    ]
