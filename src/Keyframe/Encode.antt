-- ===== src/Keyframe/Encode.antt =====
-- adapters/protocol/swarmdeck_protocol/keyframe.py: `encode_keyframe`.
use swarmdeck.Prelude.{
  ℕ, ◌/◌, ◌%◌, String, Bool, true, Option, none, some, List, [], ◌∷◌, ◌++◌, Outcome, raises,
  returns, ◌>>=◌, ltb, leb, ◌==◌, if◌then◌else◌, length, all, ◌&&◌, not, str_eq,
}
use swarmdeck.Prelude.Int.{ℤ, pos, abs}
use swarmdeck.Prelude.Float.{Float, fin, inf, is_finite, leb_float, zero_float}
use swarmdeck.Prelude.Json.{Json, Fields, null, num, str, arr, obj, end, field}
use swarmdeck.Keyframe.{
  Bytes, Raised, struct_error, refuse, check, Point, Rgba, Descriptor, KeyframePacket, Codec,
  max_keyframe_bytes, int16_limit, array_items, valid_session, validate_pose, empty_robot_id,
  bad_scale, bad_points, bad_session, bad_colors, too_large,
}
use swarmdeck.Prelude.Rounding.{rint}
use swarmdeck.Keyframe.Words.{word16, low, high, scaled}
use swarmdeck.Keyframe.Heights.{any_height, band_spec, without_nulls, validate_height_band}

-- `np.isfinite(pts).all()`
abbrev pub finite_point : Point Float → Bool
finite_point p = is_finite p.x && (is_finite p.y && is_finite p.z)

-- One coordinate of `np.rint(pts / scale)`, where it lies within the int16 range. The scale is not
-- zero or less here, and the coordinate is finite: what is over an infinity is 0, over nan it is nan.
unfoldable pub quantized : Float → Float → Option ℤ
quantized (fin (pos s)) (fin v) = if leb (abs (rint v s)) int16_limit then some (rint v s) else none
quantized inf (fin v) = some (pos 0)
quantized _ _ = none

-- A row of `quantized`, where `in_range` holds.
unfoldable pub quantized_point : Float → Point Float → Option (Point ℤ)
quantized_point scale p = elim (quantized scale p.x) [
  | none ↦ none
  | some x ↦ elim (quantized scale p.y) [
    | none ↦ none
    | some y ↦ elim (quantized scale p.z) [
      | none ↦ none
      | some z ↦ some (record { x = x; y = y; z = z })
    ]
  ]
]

-- `quantized[in_range]`
unfoldable pub quantized_points : Float → List (Point Float) → List (Point ℤ)
quantized_points scale [] = []
quantized_points scale (p ∷ ps) =
    let rest = quantized_points scale ps in
    elim (quantized_point scale p) [ none ↦ rest | some q ↦ q ∷ rest ]

-- `colors[in_range]`
unfoldable pub colors_in_range : Float → List (Point Float) → List Rgba → List Rgba
colors_in_range scale (p ∷ ps) (k ∷ ks) =
    let rest = colors_in_range scale ps ks in
    elim (quantized_point scale p) [ none ↦ rest | some q ↦ k ∷ rest ]
colors_in_range scale ps ks = []

-- `quantized.tobytes(order="C")`
unfoldable pub point_bytes : List (Point ℤ) → Bytes
point_bytes [] = []
point_bytes (q ∷ qs) =
    low (word16 q.x)
    ∷ high (word16 q.x)
    ∷ low (word16 q.y)
    ∷ high (word16 q.y)
    ∷ low (word16 q.z)
    ∷ high (word16 q.z)
    ∷ point_bytes qs

unfoldable pub color_bytes : List Rgba → Bytes
color_bytes [] = []
color_bytes (k ∷ ks) = k.r ∷ k.g ∷ k.b ∷ k.a ∷ color_bytes ks

-- A JSON integer.
abbrev pub int : ℤ → Json
int z = num (fin (scaled z))

abbrev pub descriptor_header : Option Descriptor → Json
descriptor_header none = null
descriptor_header (some d) = obj (
    field "kind" (str d.kind) (
      field "rings" (int (pos d.rings))
        (field "sectors" (int (pos d.sectors)) (field "max_range" (num d.max_range) end))))

abbrev pub descriptor_bytes : Option Descriptor → Bytes
descriptor_bytes none = []
descriptor_bytes (some d) = d.cells

unfoldable pub color_header : Option (List Rgba) → Fields
color_header none = end
color_header (some ks) = field "color_encoding" (str "rgba8") end

-- The fields that are left out where there is nothing to say.
unfoldable pub band_header : KeyframePacket → Fields → Fields
band_header k rest =
    if any_height k.ground_z k.min_height k.max_height k.lidar_height
    then field "height_band"
        (obj (without_nulls (band_spec k.ground_z k.min_height k.max_height k.lidar_height))) rest
    else rest

unfoldable pub session_header : String → Fields → Fields
session_header s rest = if str_eq s "" then rest else field "session" (str s) rest

-- The fields that every header has, before `rest`.
unfoldable pub front : Float → ℕ → KeyframePacket → Fields → Fields
front scale n k rest = field "robot_id" (str k.robot_id) (
    field "seq" (int k.seq) (
      field "stamp" (num k.stamp) (
        field "scale" (num scale) (
          field "n_points" (int (pos n)) (
            field "frame" (str "base") (
              field "t_odom_base" (arr (array_items k.t_odom_base))
                (field "descriptor" (descriptor_header k.descriptor) rest)))))))

unfoldable pub behind : KeyframePacket → Fields
behind k = session_header k.session (band_header k (color_header k.colors))

abbrev pub header : Float → ℕ → KeyframePacket → Fields
header scale n k = front scale n k (behind k)

abbrev pub kept_colors : Float → KeyframePacket → Option (List Rgba) → Bytes
kept_colors scale k none = []
kept_colors scale k (some ks) = color_bytes (colors_in_range scale k.points ks)

unfoldable pub body : Float → KeyframePacket → Bytes
body scale k =
    point_bytes (quantized_points scale k.points)
    ++ (descriptor_bytes k.descriptor ++ kept_colors scale k k.colors)

-- `_HEADER_STRUCT.pack(KEYFRAME_MAGIC, KEYFRAME_WIRE_VERSION, n)`
unfoldable pub prefix : ℕ → Bytes → Bytes
prefix n rest =
    0x53
    ∷ 0x44
    ∷ 0x4b
    ∷ 0x46
    ∷ 1
    ∷ 0
    ∷ (n % 256)
    ∷ (n / 256 % 256)
    ∷ (n / 65536 % 256)
    ∷ (n / 16777216 % 256)
    ∷ rest

module _ (c : Codec) where
  -- The last lines: the blob from the header and the body.
  unfoldable pub assemble : Fields → Bytes → Outcome Raised Bytes
  assemble h b =
      let header_bytes = c.dumps h in
      let blob = prefix (length header_bytes) (header_bytes ++ c.deflate b) in
      if leb 4294967296 (length header_bytes)
      then raises struct_error
      else if ltb max_keyframe_bytes (length blob)
      then refuse too_large
      else returns blob

  -- The heights are checked where one of them is given.
  unfoldable pub check_heights : KeyframePacket → Outcome Raised (Unit {0})
  check_heights k =
      if any_height k.ground_z k.min_height k.max_height k.lidar_height
      then (validate_height_band c
            (some (obj (band_spec k.ground_z k.min_height k.max_height k.lidar_height)))
          >>= λ _. returns tt)
      else returns tt

  abbrev pub colors_fit : ℕ → Option (List Rgba) → Bool
  colors_fit n none = true
  colors_fit n (some ks) = length ks == n

  -- `encode_keyframe`: the packet holds its keyword arguments.
  unfoldable pub encode_keyframe : Float → KeyframePacket → Outcome Raised Bytes
  encode_keyframe scale k = check (not (str_eq k.robot_id "")) empty_robot_id >>= λ _.
      check (not (leb_float scale zero_float)) bad_scale >>= λ _.
      check (all finite_point k.points) bad_points >>= λ _. validate_pose k.t_odom_base >>= λ _.
      check (valid_session k.session) bad_session >>= λ _. check_heights k >>= λ _.
      check (colors_fit (length k.points) k.colors) bad_colors >>= λ _.
      assemble (header scale (length (quantized_points scale k.points)) k) (body scale k)
