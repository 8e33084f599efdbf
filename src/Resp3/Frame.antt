-- ===== src/Resp3/Frame.antt =====
-- crates/skeg-resp3/src/frame.rs and version.rs: frames, and the two versions of the protocol. A string
-- is its bytes, and an f64 is its bit pattern.
use skeg.Prelude.{ℕ, suc, Bool, true, false, Bytes, ℤ}

mutual
  pub data Frame : Type 0 where
    simple : Bytes → Frame
    error : Bytes → Frame
    integer : ℤ → Frame
    bulk : Bytes → Frame
    null : Frame
    array : Frames → Frame
    blob_error : Bytes → Bytes → Frame
    boolean : Bool → Frame
    double : ℕ → Frame
    map_of : Pairs → Frame
    set_of : Frames → Frame
    push : Frames → Frame
    verbatim : ℕ → ℕ → ℕ → Bytes → Frame
    big_number : Bytes → Frame

  pub data Frames : Type 0 where
    no_frames : Frames
    frame : Frame → Frames → Frames

  pub data Pairs : Type 0 where
    no_pairs : Pairs
    pair : Frame → Frame → Pairs → Pairs

pub data ProtoVersion : Type 0 where
  resp2 resp3 : ProtoVersion

abbrev pub is_resp3 : ProtoVersion → Bool
is_resp3 resp2 = false
is_resp3 resp3 = true

abbrev pub frames_len : Frames → ℕ
frames_len no_frames = 0
frames_len (frame f fs) = suc (frames_len fs)

abbrev pub pairs_len : Pairs → ℕ
pairs_len no_pairs = 0
pairs_len (pair k v ps) = suc (pairs_len ps)
