-- ===== src/Resp3/Parser/Received.antt =====
-- crates/skeg-resp3/src/encoder.rs: what a client of each version gets for a frame, as the table at the top
-- of the file says, and which frames both versions can carry.
use skeg.Prelude.{
  ℕ, suc, ◌+◌, ◌*◌, ◌≤◌, ◌≡◌, length, All, Option, some, true, false, ◌==◌, if◌then◌else◌, Bytes, ℤ,
  IsI64, max,
}
use skeg.Resp3.Frame.{
  Frame, Frames, Pairs, simple, error, integer, bulk, null, array, blob_error, boolean, double,
  map_of, set_of, push, verbatim, big_number, no_frames, frame, no_pairs, pair, frames_len,
  pairs_len, ProtoVersion, is_resp3,
}
use skeg.Resp3.Scan.{max_bulk_len, max_aggregate_len, is_big_number}
use skeg.Resp3.Encoder.{blob_payload, format_double}
use skeg.Resp3.Parser.Written.{IsLine}

-- How deep the parts of a frame stand in one another.
unfoldable mutual
  pub height : Frame → ℕ
  height (array items) = suc (height_all items)
  height (map_of pairs) = suc (height_pairs pairs)
  height (set_of items) = suc (height_all items)
  height (push items) = suc (height_all items)
  height _ = 0

  pub height_all : Frames → ℕ
  height_all no_frames = 0
  height_all (frame f fs) = max (height f) (height_all fs)

  pub height_pairs : Pairs → ℕ
  height_pairs no_pairs = 0
  height_pairs (pair k v ps) = max (height k) (max (height v) (height_pairs ps))

module _ (parse_f64 : Bytes → Option ℕ) (display_f64 : ℕ → Bytes) where
  -- A frame that both versions can carry: texts of one line, numbers and sizes within the bounds.
  unfoldable mutual
    unfolding format_double

    pub IsSendable : Frame → Type 0
    IsSendable (simple s) = IsLine s
    IsSendable (error s) = IsLine s
    IsSendable (integer i) = IsI64 i
    IsSendable (bulk s) = length s ≤ max_bulk_len
    IsSendable null = Unit
    IsSendable (array items) = (frames_len items ≤ max_aggregate_len) × AreSendable items
    IsSendable (blob_error code message) =
        IsLine (blob_payload code message)
        × All (λ c. (c == 32) ≡ false) code
        × (length (blob_payload code message) ≤ max_bulk_len)
    IsSendable (boolean v) = Unit
    IsSendable (double d) =
        IsLine (format_double display_f64 d)
        × (parse_f64 (format_double display_f64 d) ≡ some d)
        × (length (format_double display_f64 d) ≤ max_bulk_len)
    IsSendable (map_of pairs) = (pairs_len pairs * 2 ≤ max_aggregate_len) × PairsSendable pairs
    IsSendable (set_of items) = (frames_len items ≤ max_aggregate_len) × AreSendable items
    IsSendable (push items) = (frames_len items ≤ max_aggregate_len) × AreSendable items
    IsSendable (verbatim a b c s) = length s + 4 ≤ max_bulk_len
    IsSendable (big_number s) = IsLine s × (is_big_number s ≡ true) × (length s ≤ max_bulk_len)

    pub AreSendable : Frames → Type 0
    AreSendable no_frames = Unit
    AreSendable (frame f fs) = IsSendable f × AreSendable fs

    pub PairsSendable : Pairs → Type 0
    PairsSendable no_pairs = Unit
    PairsSendable (pair k v ps) = IsSendable k × IsSendable v × PairsSendable ps

-- What the client of a version gets for a frame.
module _ (display_f64 : ℕ → Bytes) where
  unfoldable mutual
    unfolding format_double

    pub received : Frame → ProtoVersion → Frame
    received (simple s) version = simple s
    received (error s) version = error s
    received (integer i) version = integer i
    received (bulk s) version = bulk s
    received null version = null
    received (array items) version = array (received_all items version)
    received (blob_error code message) version =
        if is_resp3 version then blob_error code message else error (blob_payload code message)
    received (boolean v) version =
        if is_resp3 version then boolean v else integer (ℤ.pos (if v then 1 else 0))
    received (double d) version =
        if is_resp3 version then double d else bulk (format_double display_f64 d)
    received (map_of pairs) version =
        if is_resp3 version
        then map_of (received_pairs pairs version)
        else array (received_flat pairs version)
    received (set_of items) version =
        if is_resp3 version
        then set_of (received_all items version)
        else array (received_all items version)
    received (push items) version =
        if is_resp3 version
        then push (received_all items version)
        else array (received_all items version)
    received (verbatim a b c s) version = if is_resp3 version then verbatim a b c s else bulk s
    received (big_number s) version = if is_resp3 version then big_number s else bulk s

    pub received_all : Frames → ProtoVersion → Frames
    received_all no_frames version = no_frames
    received_all (frame f fs) version = frame (received f version) (received_all fs version)

    pub received_pairs : Pairs → ProtoVersion → Pairs
    received_pairs no_pairs version = no_pairs
    received_pairs (pair k v ps) version =
        pair (received k version) (received v version) (received_pairs ps version)

    -- The keys and the values in turn.
    pub received_flat : Pairs → ProtoVersion → Frames
    received_flat no_pairs version = no_frames
    received_flat (pair k v ps) version =
        frame (received k version) (frame (received v version) (received_flat ps version))
