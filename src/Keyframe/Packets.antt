-- ===== src/Keyframe/Packets.antt =====
-- adapters/protocol/swarmdeck_protocol/keyframe.py: the decoder reads the encoder's header and body.
use swarmdeck.Prelude.{
  ℕ, ◌+◌, ◌*◌, ◌<◌, ◌≡◌, refl, ap, ◌∙◌, String, true, false, Option, none, some, List, ◌++◌,
  append_assoc, returns, leb, ltb, ◌==◌, ◌&&◌, arith, length, length-append, map, str_eq,
}
use swarmdeck.Prelude.Int.{ℤ, pos, ltb_ℤ}
use swarmdeck.Prelude.Float.{Float, leb_float, zero_float}
use swarmdeck.Prelude.Json.{Fields, num, str, field?}
use swarmdeck.Keyframe.{
  Bytes, Rgba, Descriptor, KeyframePacket, Codec, IsLawful, HeightBand, valid_session,
  validate_pose, Reason, bad_field,
}
use swarmdeck.Keyframe.Words.{trunc-scaled}
use swarmdeck.Keyframe.Heights.{float_field}
use swarmdeck.Keyframe.Encode.{
  int, header, body, quantized_points, colors_in_range, point_bytes, color_bytes, color_header,
  descriptor_header, descriptor_bytes, kept_colors, check_heights,
}
use swarmdeck.Keyframe.Decode.{
  read_points, size, rescaled_point, int_field, text_field, decode_descriptor, decode_colors,
  decode_pose, read_packet,
}
use swarmdeck.Keyframe.Bodies.{
  quantized_points-InRange, length-colors_in_range, length-point_bytes, length-color_bytes,
  read_points-point_bytes, read_colors-color_bytes, drop_front, take_front,
}
use swarmdeck.Keyframe.Headers.{
  robot_id_found, seq_found, stamp_found, scale_found, n_points_found, pose_found, descriptor_found,
  color_found, session_found,
}
use swarmdeck.Keyframe.Bands.{HasBand, heights_found}

-- A descriptor has a shape, both sides of which are positive.
abbrev pub HasShape : Option Descriptor → Type 0
HasShape none = Unit
HasShape (some d) = (length d.cells ≡ d.rings * d.sectors) × (0 < d.rings) × (0 < d.sectors)

abbrev pub map_colors : Float → KeyframePacket → Option (List Rgba)
map_colors scale k = elim k.colors [
  | none ↦ none
  | some ks ↦ some (colors_in_range scale k.points ks)
]

abbrev pub HasColors : KeyframePacket → Option (List Rgba) → Type 0
HasColors k none = Unit
HasColors k (some ks) = length ks ≡ length k.points

length-descriptor_bytes :
    (o : Option Descriptor) → HasShape o → length (descriptor_bytes o) ≡ size o
length-descriptor_bytes none h = refl
length-descriptor_bytes (some d) h = h.0

int_found :
    (c : Codec) (why : Reason) (key : String) (h : Fields) (z : ℤ)
    → field? key h ≡ some (int z)
    → int_field c why key h ≡ returns z
unfolding int_field
int_found c why key h z e = rw (e, int_field) (ap returns (trunc-scaled z))

text_found :
    (c : Codec) (why : Reason) (key s : String) (h : Fields)
    → field? key h ≡ some (str s)
    → text_field c why key h ≡ returns s
unfolding text_field
text_found c why key s h e = rw (e, text_field) refl

float_found :
    (c : Codec) (key : String) (f : Float) (h : Fields)
    → field? key h ≡ some (num f)
    → float_field c key h ≡ some f
unfolding float_field
float_found c key f h e = rw (e, float_field) refl

positive : (a b : ℕ) → 0 < a → 0 < b → (ltb 0 a && ltb 0 b) ≡ true
positive a b h k = ground arith

not_below_zero : (m : ℕ) → ltb_ℤ (pos m) (pos 0) ≡ false
not_below_zero m = ground arith

holds_all :
    (d : Descriptor) (before behind : Bytes) (n : ℕ)
    → length d.cells ≡ d.rings * d.sectors
    → length before ≡ n
    → leb (n + d.rings * d.sectors) (length (before ++ (d.cells ++ behind))) ≡ true
holds_all d before behind n h e =
    ground (arith, h, e, length-append before (d.cells ++ behind), length-append d.cells behind)

holds_colors :
    (before : Bytes) (ks : List Rgba) (n m : ℕ)
    → length ks ≡ m
    → length before ≡ n
    → (length (before ++ color_bytes ks) == n + m * 4) ≡ true
holds_colors before ks n m h e =
    ground (arith, h, e, length-append before (color_bytes ks), length-color_bytes ks)

pub decode_descriptor-descriptor_header :
    (c : Codec) (o : Option Descriptor) (before behind : Bytes) (n : ℕ)
    → HasShape o
    → length before ≡ n
    → decode_descriptor c (some (descriptor_header o)) (before ++ (descriptor_bytes o ++ behind)) n
      ≡ returns o
unfolding decode_descriptor float_field
decode_descriptor-descriptor_header c none before behind n h e = refl
decode_descriptor-descriptor_header c (some d) before behind n h e =
    rw (trunc-scaled (pos d.rings), trunc-scaled (pos d.sectors))
      (rw (positive d.rings d.sectors h.1 h.2) (
        rw (holds_all d before behind n h.0 e) (
          rw (drop_front n before (d.cells ++ behind) e)
            (rw (take_front (d.rings * d.sectors) d.cells behind h.0) refl))))

pub decode_colors-color_header :
    (c : Codec) (k : KeyframePacket) (o : Option (List Rgba)) (scale : Float) (before : Bytes)
    (n : ℕ)
    → HasColors k o
    → length before ≡ n
    → decode_colors c
        (field? "color_encoding" (color_header o))
        (before ++ kept_colors scale k o)
        n
        (length (quantized_points scale k.points))
      ≡ returns (elim o [ none ↦ none | some ks ↦ some (colors_in_range scale k.points ks) ])
unfolding decode_colors color_header
decode_colors-color_header c k none scale before n h e = refl
decode_colors-color_header c k (some ks) scale before n h e =
    let same = length-colors_in_range scale k.points ks h in
    rw (holds_colors before (colors_in_range scale k.points ks) n _ same e) (
      rw (drop_front n before (color_bytes (colors_in_range scale k.points ks)) e)
        (rw (← same) (rw (read_colors-color_bytes (colors_in_range scale k.points ks)) refl)))

-- What the receiver gets: the points on the grid of the scale, those out of range left out.
unfoldable pub received : Codec → Float → KeyframePacket → KeyframePacket
received c scale k = record k {
  points = map (rescaled_point c scale) (quantized_points scale k.points);
  colors = map_colors scale k;
}

module _ (c : Codec) (laws : IsLawful c) (scale : Float) (k : KeyframePacket) where
  abbrev n : ℕ
  n = length (quantized_points scale k.points)

  descriptor_back :
      HasShape k.descriptor
      → decode_descriptor c (field? "descriptor" (header scale n k)) (body scale k) (n * 3 * 2)
        ≡ returns k.descriptor
  unfolding body
  descriptor_back shape = rw (descriptor_found scale n k) (
      decode_descriptor-descriptor_header c k.descriptor _ _ (n * 3 * 2) shape
        (length-point_bytes (quantized_points scale k.points)))

  colors_back :
      HasColors k k.colors
      → HasShape k.descriptor
      → decode_colors c
          (field? "color_encoding" (header scale n k))
          (body scale k)
          (n * 3 * 2 + size k.descriptor)
          n
        ≡ returns (map_colors scale k)
  unfolding body
  colors_back colors_ok shape =
      let before = point_bytes (quantized_points scale k.points) in
      rw (color_found scale n k) (
        rw (← append_assoc before (descriptor_bytes k.descriptor) (kept_colors scale k k.colors)) (
          decode_colors-color_header c k k.colors scale (before ++ descriptor_bytes k.descriptor) _
            colors_ok
            (length-append before (descriptor_bytes k.descriptor) ∙ λ i.
              length-point_bytes (quantized_points scale k.points) i
              + length-descriptor_bytes k.descriptor shape i)))

  pose_back :
      validate_pose k.t_odom_base ≡ returns k.t_odom_base
      → decode_pose c (field? "t_odom_base" (header scale n k)) ≡ returns k.t_odom_base
  unfolding decode_pose
  pose_back h = rw (pose_found scale n k, decode_pose) (rw (laws.as_array-array_items _) h)

  points_back : read_points n (body scale k) ≡ quantized_points scale k.points
  unfolding body
  points_back = read_points-point_bytes _ _ (quantized_points-InRange scale k.points)

  body_holds : leb (n * 3 * 2) (length (body scale k)) ≡ true
  unfolding body
  body_holds =
      let points = point_bytes (quantized_points scale k.points) in
      let rest = descriptor_bytes k.descriptor ++ kept_colors scale k k.colors in
      ground
        (arith, length-append points rest, length-point_bytes (quantized_points scale k.points))

  heights_back :
      (b : Option HeightBand)
      → HasBand k b
      → ◌≡◌ {A = KeyframePacket}
          (record (received c scale k) {
            ground_z = elim b [ none ↦ none | some h ↦ some h.ground ];
            min_height = elim b [ none ↦ none | some h ↦ some h.low ];
            max_height = elim b [ none ↦ none | some h ↦ some h.high ];
            lidar_height = elim b [ none ↦ none | some h ↦ h.lidar ];
          })
          (received c scale k)
  unfolding received
  heights_back b h = λ i. record (received c scale k) {
    ground_z = h.ground_is i;
    min_height = h.low_is i;
    max_height = h.high_is i;
    lidar_height = h.lidar_is i;
  }

  -- The packet is read back from its header and its body.
  pub read_packet-header :
      str_eq k.robot_id "" ≡ false
      → leb_float scale zero_float ≡ false
      → validate_pose k.t_odom_base ≡ returns k.t_odom_base
      → valid_session k.session ≡ true
      → check_heights c k ≡ returns tt
      → HasColors k k.colors
      → HasShape k.descriptor
      → read_packet c (header scale n k) (body scale k) ≡ returns (received c scale k)
  unfolding read_packet received
  read_packet-header id_ok scale_ok pose_ok session_ok heights_ok colors_ok shape =
      let (b, band_ok, has) = heights_found scale n k c heights_ok in
      rw (text_found c bad_field "robot_id" k.robot_id _ (robot_id_found scale n k)) (
        rw (int_found c bad_field "seq" _ k.seq (seq_found scale n k)) (
          rw (float_found c "stamp" k.stamp _ (stamp_found scale n k)) (
            rw (float_found c "scale" scale _ (scale_found scale n k)) (
              rw (int_found c bad_field "n_points" _ (pos n) (n_points_found scale n k)) (
                rw (session_found scale n k c session_ok) (
                  rw (id_ok) (
                    rw (scale_ok) (
                      rw (not_below_zero n, body_holds)
                        (rw (descriptor_back shape) (
                          rw (colors_back colors_ok shape) (
                            rw (pose_back pose_ok) (
                              rw band_ok
                                (rw points_back (ap returns (heights_back b has)))))))))))))))
