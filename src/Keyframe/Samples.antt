-- ===== src/Keyframe/Samples.antt =====
-- A keyframe of three points, one of them out of range, with a descriptor and colours.
use swarmdeck.Prelude.{
  ℕ, ◌<◌, ◌≡◌, refl, true, false, none, some, List, [], ◌∷◌, returns, raises, length, arith,
  Outcome,
}
use swarmdeck.Prelude.Int.{ℤ, pos, negsuc, times}
use swarmdeck.Prelude.Float.{Float, fin, nan, inf}
use swarmdeck.Prelude.Json.{Items, Fields, num, str, arr, obj, nil, cons, field, end}
use swarmdeck.Keyframe.{
  Bytes, Raised, Point, KeyframePacket, Codec, IsLawful, array_items, value_error, overflow_error,
  validate_pose, is_pose, is_unit, valid_session, max_decompressed_bytes,
}
use swarmdeck.Prelude.Text.{length_text, only_chars}
use swarmdeck.Prelude.Rounding.{rint, round_even}
use swarmdeck.Keyframe.Words.{word16, scaled}
use swarmdeck.Keyframe.Heights.{
  validate_height_band, fits_band, float_field, lidar_field, read_band,
}
use swarmdeck.Keyframe.Encode.{
  quantized, quantized_point, quantized_points, colors_in_range, point_bytes, color_bytes, header,
  front, behind, band_header, color_header, session_header, body, check_heights, assemble,
  encode_keyframe, prefix,
}
use swarmdeck.Keyframe.Decode.{unpack, opened, decode_keyframe}
use swarmdeck.Keyframe.Packets.{received}
use swarmdeck.Keyframe.RoundTrip.{decode_keyframe-encode_keyframe}

abbrev at : ℕ → ℕ → ℕ → Point Float
at x y z = record { x = fin (pos x); y = fin (pos y); z = fin (pos z) }

-- 0.01 m to a step: the last point is 400 m away.
abbrev packet : KeyframePacket
packet = record {
  robot_id = "spot_0";
  seq = pos 7;
  stamp = fin (pos 1500);
  points = at 1000 2004 0 ∷ at 15 25 35 ∷ at 400000 0 0 ∷ [];
  t_odom_base =
      fin (pos 0)
      ∷ fin (pos 0)
      ∷ fin (pos 0)
      ∷ fin (pos 0)
      ∷ fin (pos 0)
      ∷ fin (pos 0)
      ∷ fin (pos 1000)
      ∷ [];
  descriptor = some (record {
    kind = "ring";
    rings = 1;
    sectors = 2;
    cells = 9 ∷ 8 ∷ [];
    max_range = fin (pos 30000);
  });
  session = "boot-1";
  ground_z = some (fin (negsuc 299));
  min_height = some (fin (pos 100));
  max_height = some (fin (pos 1800));
  lidar_height = none;
  colors = some (
      record { r = 1; g = 2; b = 3; a = 255 }
      ∷ record { r = 4; g = 5; b = 6; a = 255 }
      ∷ record { r = 7; g = 8; b = 9; a = 255 }
      ∷ []);
}

floats : Items → Outcome Raised (List Float)
floats nil = returns []
floats (cons (num f) vs) = elim (floats vs) [ raises x ↦ raises x | returns fs ↦ returns (f ∷ fs) ]
floats (cons v vs) = raises value_error

abbrev exact : Float → ℤ → Float
exact (fin (pos s)) z = fin (times z s)
exact _ z = nan

-- A codec whose stream is the body itself, and whose only header is `h`.
abbrev codec : Fields → Codec
unfolding floats
codec h = record {
  dumps = λ _. 123 ∷ 125 ∷ [];
  loads = λ _. some (obj h);
  deflate = λ b. b;
  inflate = λ _ b. some (record { out = b; unconsumed = false; eof = true });
  as_array = λ v. elim v [ arr vs ↦ floats vs | _ ↦ raises value_error ];
  read_float = λ _. none;
  read_int = λ _. none;
  rescale = exact;
  render = λ _. "None";
}

floats-array_items : (fs : List Float) → floats (array_items fs) ≡ returns fs
unfolding floats
floats-array_items [] = refl
floats-array_items (f ∷ fs) = rw (floats-array_items fs) refl

codec-IsLawful : (h : Fields) → IsLawful (codec h)
unfolding codec
codec-IsLawful h = record {
  inflate-deflate = λ limit b small. refl;
  as_array-array_items = floats-array_items;
}

abbrev sent : Fields
sent = header (fin (pos 10)) 2 packet

abbrev blob : Bytes
blob =
    0x53 ∷ 0x44 ∷ 0x4b ∷ 0x46 ∷ 1 ∷ 0 ∷ 2 ∷ 0 ∷ 0 ∷ 0 ∷ 123 ∷ 125 ∷ 100 ∷ 0 ∷ 200 ∷ 0 ∷ 0 ∷ 0 ∷ 2
    ∷ 0 ∷ 2 ∷ 0 ∷ 4 ∷ 0 ∷ 9 ∷ 8 ∷ 1 ∷ 2 ∷ 3 ∷ 255 ∷ 4 ∷ 5 ∷ 6 ∷ 255 ∷ []

made : encode_keyframe (codec sent) (fin (pos 10)) packet ≡ returns blob
unfolding encode_keyframe codec validate_pose is_pose is_unit valid_session length_text only_chars
    check_heights validate_height_band fits_band assemble prefix body point_bytes quantized_points
    quantized_point quantized rint round_even color_bytes colors_in_range word16 scaled float_field
    lidar_field read_band floats front behind band_header color_header session_header
made = refl

body_small : length (body (fin (pos 10)) packet) < max_decompressed_bytes
unfolding body point_bytes quantized_points quantized_point quantized rint round_even color_bytes
    colors_in_range word16 scaled
body_small = omega arith

read_back : (codec sent).loads ((codec sent).dumps sent) ≡ some (obj sent)
unfolding codec
read_back = refl

decode_keyframe-encode_keyframe_example :
    decode_keyframe (codec sent) blob ≡ returns (received (codec sent) (fin (pos 10)) packet)
unfolding quantized_points quantized_point quantized rint round_even codec
decode_keyframe-encode_keyframe_example =
    decode_keyframe-encode_keyframe (codec sent) (codec-IsLawful sent) (fin (pos 10)) packet blob
      read_back (refl, omega arith, omega arith) body_small made

coarse : quantized (fin (pos 10)) (fin (pos 2004)) ≡ some (pos 200)
unfolding quantized rint round_even
coarse = refl

-- The header's `seq` is Infinity, which `json.loads` accepts.
abbrev endless : Fields
endless = field "robot_id" (str "spot_0") (field "seq" (num inf) end)

endless_raises : decode_keyframe (codec endless) blob ≡ raises overflow_error
unfolding decode_keyframe codec unpack opened
endless_raises = refl
