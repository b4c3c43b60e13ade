-- ===== src/Keyframe/Headers.antt =====
-- adapters/protocol/swarmdeck_protocol/keyframe.py: the header's fields are found again.
use swarmdeck.Prelude.{
  ℕ, ◌≡◌, refl, ◌∙◌, ap, sym, str_eq_iff, String, true, false, Option, none, some, List, str_eq,
  Bool-cases, Option-cases, inl, inr, returns,
}
use swarmdeck.Prelude.Float.{Float}
use swarmdeck.Prelude.Int.{pos}
use swarmdeck.Prelude.Json.{Json, Fields, num, str, arr, field, field?}
use swarmdeck.Keyframe.{Rgba, KeyframePacket, Codec, array_items, valid_session}
use swarmdeck.Keyframe.Heights.{any_height}
use swarmdeck.Keyframe.Encode.{
  int, header, session_header, band_header, color_header, descriptor_header, front, behind,
}
use swarmdeck.Keyframe.Decode.{validate_session}

color_absent :
    (key : String) (o : Option (List Rgba))
    → str_eq "color_encoding" key ≡ false
    → field? key (color_header o) ≡ none
unfolding color_header
color_absent key none h = refl
color_absent key (some ks) h = rw h refl

-- A field is looked up behind another of a different name.
field?-past :
    (key j : String) (v : Json) (rest : Fields)
    → str_eq j key ≡ false
    → field? key (field j v rest) ≡ field? key rest
field?-past key j v rest h = elim (Option-cases (field? key rest)) [
  | inl e ↦ rw (e, field?) (rw h refl)
  | inr (w, e) ↦ rw (e, field?) refl
]

band_past :
    (key : String) (k : KeyframePacket) (rest : Fields)
    → str_eq "height_band" key ≡ false
    → field? key (band_header k rest) ≡ field? key rest
unfolding band_header
band_past key k rest h =
    elim (Bool-cases (any_height k.ground_z k.min_height k.max_height k.lidar_height)) [
      | inl e ↦ rw e (field?-past key "height_band" _ rest h)
      | inr e ↦ rw e refl
    ]

session_past :
    (key s : String) (rest : Fields)
    → str_eq "session" key ≡ false
    → field? key (session_header s rest) ≡ field? key rest
unfolding session_header
session_past key s rest h = elim (Bool-cases (str_eq s "")) [
  | inl e ↦ rw e refl
  | inr e ↦ rw e (field?-past key "session" _ rest h)
]

behind_absent :
    (key : String) (k : KeyframePacket)
    → str_eq "session" key ≡ false
    → str_eq "height_band" key ≡ false
    → str_eq "color_encoding" key ≡ false
    → field? key (behind k) ≡ none
unfolding behind
behind_absent key k s h c =
    session_past key k.session (band_header k (color_header k.colors)) s
    ∙ (band_past key k (color_header k.colors) h ∙ color_absent key k.colors c)

-- A field of the front is found where the rest has none of that name, and the others in the rest.
module _ (scale : Float) (n : ℕ) (k : KeyframePacket) (rest : Fields) where
  robot_id_front :
      field? "robot_id" rest ≡ none
      → field? "robot_id" (front scale n k rest) ≡ some (str k.robot_id)
  unfolding front
  robot_id_front h = rw (h, field?) refl

  seq_front : field? "seq" rest ≡ none → field? "seq" (front scale n k rest) ≡ some (int k.seq)
  unfolding front
  seq_front h = rw (h, field?) refl

  stamp_front :
      field? "stamp" rest ≡ none → field? "stamp" (front scale n k rest) ≡ some (num k.stamp)
  unfolding front
  stamp_front h = rw (h, field?) refl

  scale_front :
      field? "scale" rest ≡ none → field? "scale" (front scale n k rest) ≡ some (num scale)
  unfolding front
  scale_front h = rw (h, field?) refl

  n_points_front :
      field? "n_points" rest ≡ none → field? "n_points" (front scale n k rest) ≡ some (int (pos n))
  unfolding front
  n_points_front h = rw (h, field?) refl

  pose_front :
      field? "t_odom_base" rest ≡ none
      → field? "t_odom_base" (front scale n k rest) ≡ some (arr (array_items k.t_odom_base))
  unfolding front
  pose_front h = rw (h, field?) refl

  descriptor_front :
      field? "descriptor" rest ≡ none
      → field? "descriptor" (front scale n k rest) ≡ some (descriptor_header k.descriptor)
  unfolding front
  descriptor_front h = rw (h, field?) refl

  session_front_past : field? "session" (front scale n k rest) ≡ field? "session" rest
  unfolding front
  session_front_past = elim (Option-cases (field? "session" rest)) [
    | inl e ↦ rw (e, field?) refl
    | inr (v, e) ↦ rw (e, field?) refl
  ]

  color_encoding_past :
      field? "color_encoding" (front scale n k rest) ≡ field? "color_encoding" rest
  unfolding front
  color_encoding_past = elim (Option-cases (field? "color_encoding" rest)) [
    | inl e ↦ rw (e, field?) refl
    | inr (v, e) ↦ rw (e, field?) refl
  ]

  height_band_past : field? "height_band" (front scale n k rest) ≡ field? "height_band" rest
  unfolding front
  height_band_past = elim (Option-cases (field? "height_band" rest)) [
    | inl e ↦ rw (e, field?) refl
    | inr (v, e) ↦ rw (e, field?) refl
  ]

module _ (scale : Float) (n : ℕ) (k : KeyframePacket) where
  pub robot_id_found : field? "robot_id" (header scale n k) ≡ some (str k.robot_id)
  robot_id_found = robot_id_front scale n k (behind k) (behind_absent "robot_id" k refl refl refl)

  pub seq_found : field? "seq" (header scale n k) ≡ some (int k.seq)
  seq_found = seq_front scale n k (behind k) (behind_absent "seq" k refl refl refl)

  pub stamp_found : field? "stamp" (header scale n k) ≡ some (num k.stamp)
  stamp_found = stamp_front scale n k (behind k) (behind_absent "stamp" k refl refl refl)

  pub scale_found : field? "scale" (header scale n k) ≡ some (num scale)
  scale_found = scale_front scale n k (behind k) (behind_absent "scale" k refl refl refl)

  pub n_points_found : field? "n_points" (header scale n k) ≡ some (int (pos n))
  n_points_found = n_points_front scale n k (behind k) (behind_absent "n_points" k refl refl refl)

  pub pose_found : field? "t_odom_base" (header scale n k) ≡ some (arr (array_items k.t_odom_base))
  pose_found = pose_front scale n k (behind k) (behind_absent "t_odom_base" k refl refl refl)

  pub descriptor_found :
      field? "descriptor" (header scale n k) ≡ some (descriptor_header k.descriptor)
  descriptor_found =
      descriptor_front scale n k (behind k) (behind_absent "descriptor" k refl refl refl)

  pub color_found :
      field? "color_encoding" (header scale n k) ≡ field? "color_encoding" (color_header k.colors)
  unfolding behind
  color_found =
      color_encoding_past scale n k (behind k)
      ∙ (session_past "color_encoding" k.session (band_header k (color_header k.colors)) refl
          ∙ band_past "color_encoding" k (color_header k.colors) refl)

  pub band_found :
      field? "height_band" (header scale n k)
      ≡ field? "height_band" (band_header k (color_header k.colors))
  unfolding behind
  band_found =
      height_band_past scale n k (behind k)
      ∙ session_past "height_band" k.session (band_header k (color_header k.colors)) refl

  session_last : field? "session" (band_header k (color_header k.colors)) ≡ none
  session_last =
      band_past "session" k (color_header k.colors) refl ∙ color_absent "session" k.colors refl

  -- An empty session is left out, and a missing one reads as the empty one.
  pub session_found :
      (c : Codec)
      → valid_session k.session ≡ true
      → validate_session c (field? "session" (header scale n k)) ≡ returns k.session
  unfolding behind session_header validate_session
  session_found c v = rw (session_past_front) (elim (Bool-cases (str_eq k.session "")) [
    | inl e ↦ rw e (rw session_last (ap returns (sym ((str_eq_iff k.session "").0 e))))
    | inr e ↦ rw e (rw (session_last, field?) (rw v refl))
  ])
    where
      session_past_front : field? "session" (header scale n k) ≡ field? "session" (behind k)
      session_past_front = session_front_past scale n k (behind k)

  pub color_last : field? "height_band" (color_header k.colors) ≡ none
  color_last = color_absent "height_band" k.colors refl
