-- ===== src/Proto/Frame/Stream.antt =====
-- The parser does not see how the network cuts the stream.
use skeg.Prelude.{
  ◌≡◌, ap, sym, ◌∙◌, Bytes, [], ◌++◌, none, Bool-cases, inl, inr, length, ltb, ltb→lt, ltb→le,
}
use skeg.Proto.Error.{Parsed, ok, err}
use skeg.Proto.Frame.{
  FrameHeader, ParseState, in_header, in_payload, header_len, fill, parse_header, end_payload,
  feed_payload, feed_parsed, end_header, feed,
}
use skeg.Proto.Frame.Fill.{fill-short, fill-more, fill-full}

feed_payload-more :
    (header : FrameHeader) (buf a : Bytes)
    → (feed_payload header buf a).0 ≡ ok none
    → ((feed_payload header buf a).2 ≡ [])
      × ((b : Bytes) → feed_payload header buf (a ++ b) ≡ feed (feed_payload header buf a).1 b)
unfolding feed_payload end_payload feed
feed_payload-more header buf a h =
    elim (Bool-cases (ltb (length (fill header.payload_len buf a).0) header.payload_len)) [
      | inl short ↦
          let (taken, room) =
            fill-short header.payload_len buf a
              (ltb→lt (length (fill header.payload_len buf a).0) header.payload_len short) in
          rw short (
            ap (λ p. p.1) taken,
            λ b. ap (end_payload header) (
                fill-more header.payload_len buf a b room
                ∙ ap (λ p. fill header.payload_len p.0 b) (sym taken)),
          )
      | inr whole ↦ absurd (cc (rw whole at h))
    ]

feed_parsed-more :
    (parsed : Parsed FrameHeader) (buf a : Bytes)
    → (feed_parsed parsed buf a).0 ≡ ok none
    → ((feed_parsed parsed buf a).2 ≡ [])
      × ((b : Bytes) → feed_parsed parsed buf (a ++ b) ≡ feed (feed_parsed parsed buf a).1 b)
unfolding feed_parsed
feed_parsed-more (err e) buf a h = absurd (cc)
feed_parsed-more (ok header) buf a h = feed_payload-more header [] a h

-- A call that returns no frame and no error has taken all its input, and feeding more bytes then gives
-- what one call on all the bytes gives.
pub feed-append :
    (state : ParseState) (a b : Bytes)
    → (feed state a).0 ≡ ok none
    → ((feed state a).2 ≡ []) × (feed state (a ++ b) ≡ feed (feed state a).1 b)
unfolding feed end_header
feed-append (in_payload header buf) a b h =
    let (taken, more) = feed_payload-more header buf a h in (taken, more b)
feed-append (in_header buf) a b h =
    elim (Bool-cases (ltb (length (fill header_len buf a).0) header_len)) [
      | inl short ↦
          let (taken, room) =
            fill-short header_len buf a
              (ltb→lt (length (fill header_len buf a).0) header_len short) in
          rw short (
            ap (λ p. p.1) taken,
            ap end_header
                (fill-more header_len buf a b room ∙ ap (λ p. fill header_len p.0 b) (sym taken)),
          )
      | inr whole ↦
          let full = ltb→le (length (fill header_len buf a).0) header_len whole in
          let (taken, more) =
            feed_parsed-more (parse_header (fill header_len buf a).0) (fill header_len buf a).0
              (fill header_len buf a).1 (rw whole at h) in
          rw whole (taken, ap end_header (fill-full header_len buf a b full) ∙ rw whole (more b))
    ]
