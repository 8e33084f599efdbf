-- ===== src/Resp3/Dispatch/Wire.antt =====
-- crates/skeg-resp3: a client's command on its way from its bytes to `parse_command`.
use skeg.Prelude.{
  ℕ, suc, ◌≤◌, ◌≡◌, ◌∙◌, refl, ap, arith, List, [], ◌∷◌, ◌++◌, length, All, Option, true, Bytes,
  is_utf8, to_ascii_uppercase,
}
use skeg.Resp3.Frame.{Frame, bulk, array, frame, frames_len, ProtoVersion}
use skeg.Resp3.Scan.{done, max_bulk_len, max_aggregate_len}
use skeg.Resp3.Encoder.{encode_frame}
use skeg.Resp3.Parser.{parse_frame}
use skeg.Resp3.Parser.Received.{height, height_all, IsSendable, AreSendable, received, received_all}
use skeg.Resp3.Parser.RoundTrip.{parse_frame-encode_frame}
use skeg.Resp3.Command.{Command, ok}
use skeg.Resp3.Dispatch.{parse_command}
use skeg.Resp3.Dispatch.Request.{request, IsRequest, bulks}
use skeg.Resp3.Dispatch.RoundTrip.{parse_command-request}

-- The frame of a command.
abbrev pub command_frame : Command → Bytes → Frame
command_frame c name = array (frame (bulk name) (bulks (request c).1))

-- No argument is longer than a bulk string may be.
abbrev pub AreShort : List Bytes → Type 0
AreShort args = All (λ b. length b ≤ max_bulk_len) args

frames_len-bulks : (args : List Bytes) → frames_len (bulks args) ≡ length args
frames_len-bulks [] = refl
frames_len-bulks (b ∷ bs) = ap suc (frames_len-bulks bs)

height-bulks : (args : List Bytes) → height_all (bulks args) ≡ 0
unfolding height
height-bulks [] = refl
height-bulks (b ∷ bs) = omega (arith, height-bulks bs)

bulks-AreSendable :
    (p : Bytes → Option ℕ) (d : ℕ → Bytes) (args : List Bytes)
    → AreShort args
    → AreSendable p d (bulks args)
unfolding IsSendable
bulks-AreSendable p d [] h = tt
bulks-AreSendable p d (b ∷ bs) (hb, h) = (hb, bulks-AreSendable p d bs h)

received-bulks :
    (d : ℕ → Bytes) (args : List Bytes) (version : ProtoVersion)
    → received_all d (bulks args) version ≡ bulks args
unfolding received
received-bulks d [] version = refl
received-bulks d (b ∷ bs) version = ap (λ fs. frame (bulk b) fs) (received-bulks d bs version)

array-reads :
    (p : Bytes → Option ℕ) (d : ℕ → Bytes) (args : List Bytes) (version : ProtoVersion)
    (rest : Bytes)
    → AreShort args
    → length args ≤ max_aggregate_len
    → parse_frame p (encode_frame d (array (bulks args)) version ++ rest)
      ≡ done (array (bulks args)) (length (encode_frame d (array (bulks args)) version))
unfolding IsSendable height received
array-reads p d args version rest short few =
    parse_frame-encode_frame p d (array (bulks args)) version rest
      (omega (arith, frames_len-bulks args), bulks-AreSendable p d args short)
      (omega (arith, height-bulks args))
    ∙ ap (λ fs. done (array fs) (length (encode_frame d (array (bulks args)) version)))
        (received-bulks d args version)

-- The bytes of a command that a client may send, its name in any mix of capital and small letters and
-- its arguments within the limits, are parsed to a frame that `parse_command` reads as the command, and
-- the parse ends where the bytes do.
pub parse_frame-command :
    (parse_f64 : Bytes → Option ℕ) (display_f64 : ℕ → Bytes) (c : Command) (name : Bytes)
    (version : ProtoVersion) (rest : Bytes)
    → IsRequest c
    → is_utf8 name ≡ true
    → to_ascii_uppercase name ≡ (request c).0
    → AreShort (name ∷ (request c).1)
    → suc (length (request c).1) ≤ max_aggregate_len
    → (parse_frame parse_f64 (encode_frame display_f64 (command_frame c name) version ++ rest)
        ≡ done
            (command_frame c name)
            (length (encode_frame display_f64 (command_frame c name) version)))
      × (parse_command (command_frame c name) ≡ ok c)
parse_frame-command parse_f64 display_f64 c name version rest r u e short few = (
  array-reads parse_f64 display_f64 (name ∷ (request c).1) version rest short few,
  parse_command-request c name r u e,
)
