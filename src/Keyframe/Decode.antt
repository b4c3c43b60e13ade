-- ===== src/Keyframe/Decode.antt =====
-- adapters/protocol/swarmdeck_protocol/keyframe.py: `peek_keyframe_header` and `decode_keyframe`.
use swarmdeck.Prelude.{
  ℕ, suc, ◌+◌, ◌*◌, String, Bool, true, false, Option, none, some, List, [], ◌∷◌, Outcome, raises,
  returns, ◌>>=◌, ltb, leb, ◌==◌, if◌then◌else◌, length, map, take, drop, ◌&&◌, not, str_eq,
}
use swarmdeck.Prelude.Int.{ℤ, pos, pos_part, ltb_ℤ}
use swarmdeck.Prelude.Float.{Float, fin, nan, inf, neg_inf, leb_float, zero_float}
use swarmdeck.Prelude.Json.{Json, Fields, null, bool, num, str, arr, obj, field?}
use swarmdeck.Keyframe.{
  Bytes, Reason, Raised, overflow_error, refuse, need, check, Point, Rgba, Descriptor,
  KeyframePacket, Codec, max_keyframe_bytes, max_decompressed_bytes, valid_session, validate_pose,
  empty_robot_id, bad_scale, bad_session, too_large, too_short, bad_magic, bad_version,
  header_overrun, bad_json, not_an_object, bad_zlib, decompression_limit, truncated_stream,
  bad_field, negative_points, short_body, bad_descriptor, short_descriptor, bad_color_encoding,
  color_mismatch,
}
use swarmdeck.Prelude.Rounding.{trunc}
use swarmdeck.Keyframe.Words.{signed16}
use swarmdeck.Keyframe.Heights.{float_field, validate_height_band}

-- `_HEADER_STRUCT.unpack_from(blob)`, and the bytes after it.
pub record Prefix : Type 0 where
  pub magic_ok : Bool
  pub version : ℕ
  pub header_len : ℕ
  pub rest : Bytes

unfoldable pub unpack : Bytes → Option Prefix
unpack (m ∷ a ∷ g ∷ i ∷ v ∷ w ∷ p ∷ q ∷ r ∷ s ∷ rest) = some (record {
  magic_ok = m == 0x53 && (a == 0x44 && (g == 0x4b && i == 0x46));
  version = v + 256 * w;
  header_len = p + 256 * q + 65536 * r + 16777216 * s;
  rest = rest;
})
unpack _ = none

-- A row of points; a body that is too short has been refused before.
unfoldable pub read_points : ℕ → Bytes → List (Point ℤ)
read_points (suc n) (a ∷ b ∷ c ∷ d ∷ e ∷ f ∷ rest) =
    record { x = signed16 (a + 256 * b); y = signed16 (c + 256 * d); z = signed16 (e + 256 * f) }
    ∷ read_points n rest
read_points _ _ = []

unfoldable pub read_colors : ℕ → Bytes → List Rgba
read_colors (suc n) (a ∷ b ∷ c ∷ d ∷ rest) =
    record { r = a; g = b; b = c; a = d } ∷ read_colors n rest
read_colors _ _ = []

-- `points * scale`
abbrev pub rescaled_point : Codec → Float → Point ℤ → Point Float
rescaled_point c s q = record { x = c.rescale s q.x; y = c.rescale s q.y; z = c.rescale s q.z }

abbrev pub size : Option Descriptor → ℕ
size none = 0
size (some d) = d.rings * d.sectors

module _ (c : Codec) where
  -- The header that `json.loads` made, which has to be an object.
  unfoldable pub opened : Prefix → Option Json → Outcome Raised (Fields × Bytes)
  opened p none = refuse bad_json
  opened p (some (obj fs)) = returns (fs, drop p.header_len p.rest)
  opened p (some _) = refuse not_an_object

  -- `peek_keyframe_header`, and the bytes behind the header.
  unfoldable pub open_header : Prefix → Outcome Raised (Fields × Bytes)
  unfolding opened
  open_header p =
      if not p.magic_ok
      then refuse bad_magic
      else if not (p.version == 1)
      then refuse bad_version
      else if ltb (length p.rest) p.header_len
      then refuse header_overrun
      else opened p (c.loads (take p.header_len p.rest))

  unfoldable pub unpacked : Option Prefix → Outcome Raised (Fields × Bytes)
  unfolding open_header
  unpacked none = refuse too_short
  unpacked (some p) = open_header p

  unfoldable pub peek_keyframe_header : Bytes → Outcome Raised (Fields × Bytes)
  unfolding unpacked
  peek_keyframe_header blob =
      if ltb max_keyframe_bytes (length blob) then refuse too_large else unpacked (unpack blob)

  -- `_decompress_bounded`, with the `zlib.error` caught.
  unfoldable pub decompress_bounded : Bytes → Outcome Raised Bytes
  decompress_bounded payload = elim (c.inflate max_decompressed_bytes payload) [
    | none ↦ refuse bad_zlib
    | some r ↦
        if r.unconsumed
        then refuse decompression_limit
        else if r.eof
        then returns r.out
        else refuse truncated_stream
  ]

  -- `int(v)`: nan is a `ValueError`, which is caught, and an infinity an `OverflowError`, which is not.
  unfoldable pub to_int : Reason → Json → Outcome Raised ℤ
  to_int why (num (fin v)) = returns (trunc v)
  to_int why (num nan) = refuse why
  to_int why (num inf) = raises overflow_error
  to_int why (num neg_inf) = raises overflow_error
  to_int why (bool true) = returns (pos 1)
  to_int why (bool false) = returns (pos 0)
  to_int why (str s) = need (c.read_int s) why
  to_int why null = refuse why
  to_int why (arr _) = refuse why
  to_int why (obj _) = refuse why

  -- `int(header[key])`
  unfoldable pub int_field : Reason → String → Fields → Outcome Raised ℤ
  unfolding to_int
  int_field why key fs = elim (field? key fs) [ none ↦ refuse why | some v ↦ to_int why v ]

  abbrev pub text_of : Json → String
  text_of (str s) = s
  text_of v = c.render v

  -- `str(header[key])`
  unfoldable pub text_field : Reason → String → Fields → Outcome Raised String
  text_field why key fs = elim (field? key fs) [ none ↦ refuse why | some v ↦ returns (text_of v) ]

  -- `_validate_session(header.get("session"))`
  unfoldable pub validate_session : Option Json → Outcome Raised String
  validate_session none = returns ""
  validate_session (some null) = returns ""
  validate_session (some (str s)) = if valid_session s then returns s else refuse bad_session
  validate_session (some _) = refuse bad_session

  -- `_decode_descriptor`
  unfoldable pub read_descriptor : Fields → Bytes → ℕ → Outcome Raised (Option Descriptor)
  unfolding int_field text_field
  read_descriptor fs body offset = text_field bad_descriptor "kind" fs >>= λ kind.
      int_field bad_descriptor "rings" fs >>= λ rings.
      int_field bad_descriptor "sectors" fs >>= λ sectors.
      need (float_field c "max_range" fs) bad_descriptor >>= λ max_range.
      check (ltb 0 (pos_part rings) && ltb 0 (pos_part sectors)) bad_descriptor >>= λ _.
      check (leb (offset + pos_part rings * pos_part sectors) (length body)) short_descriptor
      >>= λ _. returns (
          some (record {
            kind = kind;
            rings = pos_part rings;
            sectors = pos_part sectors;
            cells = take (pos_part rings * pos_part sectors) (drop offset body);
            max_range = max_range;
          }))

  unfoldable pub decode_descriptor : Option Json → Bytes → ℕ → Outcome Raised (Option Descriptor)
  unfolding read_descriptor
  decode_descriptor none body offset = returns none
  decode_descriptor (some null) body offset = returns none
  decode_descriptor (some (obj fs)) body offset = read_descriptor fs body offset
  decode_descriptor (some _) body offset = refuse bad_descriptor

  -- The colours of `decode_keyframe`.
  unfoldable pub decode_colors : Option Json → Bytes → ℕ → ℕ → Outcome Raised (Option (List Rgba))
  decode_colors none body offset n = returns none
  decode_colors (some null) body offset n = returns none
  decode_colors (some (str s)) body offset n = check (str_eq s "rgba8") bad_color_encoding >>= λ _.
      check (length body == offset + n * 4) color_mismatch >>= λ _.
      returns (some (read_colors n (drop offset body)))
  decode_colors (some _) body offset n = refuse bad_color_encoding

  -- `_validate_pose(header.get("t_odom_base"))`
  unfoldable pub decode_pose : Option Json → Outcome Raised (List Float)
  decode_pose none = c.as_array null >>= validate_pose
  decode_pose (some v) = c.as_array v >>= validate_pose

  -- What `decode_keyframe` does with the header and the decompressed body.
  unfoldable pub read_packet : Fields → Bytes → Outcome Raised KeyframePacket
  unfolding int_field text_field validate_session decode_descriptor decode_colors decode_pose
  read_packet h body = text_field bad_field "robot_id" h >>= λ robot_id.
      int_field bad_field "seq" h >>= λ seq. need (float_field c "stamp" h) bad_field >>= λ stamp.
      need (float_field c "scale" h) bad_field >>= λ scale.
      int_field bad_field "n_points" h >>= λ n_points.
      validate_session (field? "session" h) >>= λ session.
      check (not (str_eq robot_id "")) empty_robot_id >>= λ _.
      check (not (leb_float scale zero_float)) bad_scale >>= λ _.
      check (not (ltb_ℤ n_points (pos 0))) negative_points >>= λ _.
      let n = pos_part n_points in
      check (leb (n * 3 * 2) (length body)) short_body >>= λ _.
      decode_descriptor (field? "descriptor" h) body (n * 3 * 2) >>= λ descriptor.
      decode_colors (field? "color_encoding" h) body (n * 3 * 2 + size descriptor) n >>= λ colors.
      decode_pose (field? "t_odom_base" h) >>= λ pose.
      validate_height_band c (field? "height_band" h) >>= λ band. returns (record {
        robot_id = robot_id;
        seq = seq;
        stamp = stamp;
        points = map (rescaled_point c scale) (read_points n body);
        t_odom_base = pose;
        descriptor = descriptor;
        session = session;
        ground_z = elim band [ none ↦ none | some b ↦ some b.ground ];
        min_height = elim band [ none ↦ none | some b ↦ some b.low ];
        max_height = elim band [ none ↦ none | some b ↦ some b.high ];
        lidar_height = elim band [ none ↦ none | some b ↦ b.lidar ];
        colors = colors;
      })

  unfoldable pub decode_keyframe : Bytes → Outcome Raised KeyframePacket
  unfolding peek_keyframe_header decompress_bounded read_packet
  decode_keyframe blob =
      peek_keyframe_header blob >>= λ h. decompress_bounded h.1 >>= λ body. read_packet h.0 body
