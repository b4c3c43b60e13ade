-- ===== src/Keyframe.antt =====
-- adapters/protocol/swarmdeck_protocol/keyframe.py: the types, and the numbers on the wire.
pub mod Words
pub mod Heights
pub mod Encode
pub mod Decode
pub mod Bodies
pub mod Headers
pub mod Bands
pub mod Packets
pub mod RoundTrip
mod Samples
use swarmdeck.Prelude.{
  ℕ, zero, suc, ◌+◌, ◌-◌, ◌*◌, ◌/◌, ◌%◌, ◌≤◌, ◌≡◌, String, Bool, true, false, Option, none, some,
  List, [], ◌∷◌, Outcome, ltb, leb, ◌==◌, if◌then◌else◌, length, map, ◌&&◌, not, raises, returns,
}
use swarmdeck.Prelude.Int.{ℤ, pos, negsuc, abs}
use swarmdeck.Prelude.Float.{Float, fin, nan, inf, neg_inf, ltb_float, leb_float, zero_float}
use swarmdeck.Prelude.Text.{length_text, only_chars}
use swarmdeck.Prelude.Json.{Json, Items, Fields, null, bool, num, str, arr, obj, to_float}

abbrev pub Bytes : Type 0
Bytes = List ℕ

-- The reasons of a `ProtocolError`.
pub data Reason : Type 0 where
  empty_robot_id bad_scale bad_points bad_pose bad_session bad_height_band bad_colors : Reason
  too_large too_short bad_magic bad_version header_overrun bad_json not_an_object : Reason
  bad_zlib decompression_limit truncated_stream bad_field negative_points short_body : Reason
  bad_descriptor short_descriptor bad_color_encoding color_mismatch : Reason

-- A `ProtocolError`, or another exception that passes through.
pub data Raised : Type 0 where
  protocol : Reason → Raised
  overflow_error value_error type_error struct_error : Raised

abbrev pub refuse {ℓ} : {A : Type ℓ} → Reason → Outcome Raised A
refuse r = raises (protocol r)

-- `if not test: raise ProtocolError(...)`
abbrev pub check : Bool → Reason → Outcome Raised (Unit {0})
check true r = returns tt
check false r = refuse r

-- What a caught `KeyError`, `TypeError` or `ValueError` becomes.
abbrev pub need {ℓ} : {A : Type ℓ} → Option A → Reason → Outcome Raised A
need none r = refuse r
need (some a) r = returns a

pub record Point {ℓ} (A : Type ℓ) : Type ℓ where
  pub x : A
  pub y : A
  pub z : A

pub record Rgba : Type 0 where
  pub r : ℕ
  pub g : ℕ
  pub b : ℕ
  pub a : ℕ

-- `cells` are the rows one after another: rings * sectors of them, which `uint8` arrays are.
pub record Descriptor : Type 0 where
  pub kind : String
  pub rings : ℕ
  pub sectors : ℕ
  pub cells : Bytes
  pub max_range : Float

pub record KeyframePacket : Type 0 where
  pub robot_id : String
  pub seq : ℤ
  pub stamp : Float
  pub points : List (Point Float)
  pub t_odom_base : List Float
  pub descriptor : Option Descriptor
  pub session : String
  pub ground_z : Option Float
  pub min_height : Option Float
  pub max_height : Option Float
  pub lidar_height : Option Float
  pub colors : Option (List Rgba)

abbrev pub max_keyframe_bytes : ℕ
max_keyframe_bytes = 8388608

abbrev pub max_decompressed_bytes : ℕ
max_decompressed_bytes = 67108864

abbrev pub int16_limit : ℕ
int16_limit = 32767

abbrev pub max_session_chars : ℕ
max_session_chars = 64

abbrev pub session_allowed : String
session_allowed = "abcdefghijklmnopqrstuvwxyzABCDEFGHIJKLMNOPQRSTUVWXYZ0123456789._-"

abbrev pub wire_version : ℕ
wire_version = 1

-- `zlib.decompressobj().decompress(payload, limit)`, with the state of the object afterwards.
pub record Inflated : Type 0 where
  pub out : Bytes
  pub unconsumed : Bool
  pub eof : Bool

-- The code that the module only calls: json, zlib, numpy's reading of a JSON value as an array, and
-- Python's own readings of a text as a number.
pub record Codec : Type 0 where
  -- `json.dumps(header).encode("utf-8")`
  pub dumps : Fields → Bytes
  -- `json.loads(bytes.decode("utf-8"))`, `none` for either's ValueError; its
  -- RecursionError, on a text that is nested too deeply, is left out
  pub loads : Bytes → Option Json
  pub deflate : Bytes → Bytes
  -- `none` for a `zlib.error`
  pub inflate : ℕ → Bytes → Option Inflated
  pub as_array : Json → Outcome Raised (List Float)
  pub read_float : String → Option Float
  pub read_int : String → Option ℤ
  -- One coordinate of `points.astype(np.float32) * scale`, which rounds to float32.
  pub rescale : Float → ℤ → Float
  -- `str(v)` of a value that is no text
  pub render : Json → String

abbrev pub array_items : List Float → Items
array_items [] = Items.nil
array_items (f ∷ fs) = Items.cons (num f) (array_items fs)

-- The documented behaviour of zlib and numpy that a round trip needs.
pub record IsLawful (c : Codec) : Type 0 where
  -- A stream of fewer bytes than the limit is read to its end.
  pub inflate-deflate :
      (limit : ℕ) (body : Bytes)
      → ltb (length body) limit ≡ true
      → c.inflate limit (c.deflate body)
        ≡ some (record { out = body; unconsumed = false; eof = true })
  pub as_array-array_items : (fs : List Float) → c.as_array (arr (array_items fs)) ≡ returns fs

-- `_validate_session`, of a text.
pub valid_session : String → Bool
valid_session s = leb (length_text s) max_session_chars && only_chars session_allowed s

-- `0.9 < norm < 1.1`, squared: the sum of the squares is in millionths.
unfoldable pub is_unit : Float → Float → Float → Float → Bool
is_unit (fin x) (fin y) (fin z) (fin w) =
    let sum = abs x * abs x + abs y * abs y + abs z * abs z + abs w * abs w in
    ltb 810000 sum && ltb sum 1210000
is_unit _ _ _ _ = false

-- Seven finite floats, the last four of which are a unit quaternion.
unfoldable pub is_pose : List Float → Bool
is_pose (fin x ∷ fin y ∷ fin z ∷ a ∷ b ∷ c ∷ d ∷ []) = is_unit a b c d
is_pose _ = false

-- `_validate_pose`, of an array of one dimension.
unfoldable pub validate_pose : List Float → Outcome Raised (List Float)
unfolding is_pose is_unit
validate_pose p = if is_pose p then returns p else refuse bad_pose

-- `json.loads(json.dumps(h)) == h`, for one header.
abbrev pub ReadsBack : Codec → Fields → Type 0
ReadsBack c h = c.loads (c.dumps h) ≡ some (obj h)

pub record HeightBand : Type 0 where
  pub ground : Float
  pub low : Float
  pub high : Float
  pub lidar : Option Float
