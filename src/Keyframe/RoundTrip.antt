-- ===== src/Keyframe/RoundTrip.antt =====
-- adapters/protocol/swarmdeck_protocol/keyframe.py: decode after encode.
use swarmdeck.Prelude.{
  ℕ, ◌<◌, ◌≡◌, refl, ap, Bool, true, false, Option, none, some, List, ◌++◌, returns,
  bind-eq-returns, Bool-cases, inl, inr, leb, ltb, not, arith, length, length-append, all, str_eq,
}
use swarmdeck.Prelude.Float.{Float, leb_float, zero_float}
use swarmdeck.Prelude.Json.{Fields}
use swarmdeck.Keyframe.{
  Bytes, Reason, check, Rgba, KeyframePacket, Codec, IsLawful, ReadsBack, valid_session,
  validate_pose, is_pose, max_keyframe_bytes, max_decompressed_bytes, empty_robot_id, bad_scale,
  bad_points, bad_session, bad_colors,
}
use swarmdeck.Keyframe.Words.{word32}
use swarmdeck.Keyframe.Encode.{
  header, body, prefix, assemble, encode_keyframe, check_heights, colors_fit, quantized_points,
  finite_point,
}
use swarmdeck.Keyframe.Decode.{
  unpack, open_header, peek_keyframe_header, decompress_bounded, decode_keyframe,
}
use swarmdeck.Keyframe.Packets.{HasShape, HasColors, received, read_packet-header}
use swarmdeck.Keyframe.Bodies.{drop_front, take_front}

-- A check that passed.
passed : (b : Bool) (r : Reason) (u : Unit {0}) → check b r ≡ returns u → b ≡ true
passed true r u h = refl
passed false r u h = cc

-- A pose that is accepted is returned as it is.
pose_same : (p q : List Float) → validate_pose p ≡ returns q → validate_pose p ≡ returns p
unfolding validate_pose
pose_same p q h = elim (Bool-cases (is_pose p)) [
  | inl e ↦ rw e refl
  | inr e ↦ absurd (cc (rw e at h))
]

not-true : (b : Bool) → not b ≡ true → b ≡ false
not-true false h = refl
not-true true h = cc

module _ (c : Codec) (laws : IsLawful c) where
  colors_same :
      (k : KeyframePacket) (o : Option (List Rgba))
      → colors_fit c (length k.points) o ≡ true
      → HasColors k o
  colors_same k none h = tt
  colors_same k (some ks) h = ground arith

  framed : Fields → Bytes → Bytes
  framed h b = prefix (length (c.dumps h)) (c.dumps h ++ c.deflate b)

  -- What it takes for a blob to be returned.
  assembled :
      (h : Fields) (b blob : Bytes)
      → assemble c h b ≡ returns blob
      → (leb 4294967296 (length (c.dumps h)) ≡ false)
        × (ltb max_keyframe_bytes (length (framed h b)) ≡ false)
        × (framed h b ≡ blob)
  unfolding assemble framed
  assembled h b blob e = elim (Bool-cases (leb 4294967296 (length (c.dumps h)))) [
    | inl long ↦ absurd (cc (rw long at e))
    | inr short ↦ elim (Bool-cases (ltb max_keyframe_bytes (length (framed h b)))) [
      | inl large ↦ absurd (cc (rw (short, large) at e))
      | inr small ↦ (short, small, cc (rw (short, small) at e))
    ]
  ]

  open_header-header :
      (h : Fields) (rest : Bytes)
      → ReadsBack c h
      → open_header c (record {
        magic_ok = true;
        version = 1;
        header_len = length (c.dumps h);
        rest = c.dumps h ++ rest;
      })
        ≡ returns (h, rest)
  unfolding open_header
  open_header-header h rest back = rw (overrun) (
      rw (take_front _ (c.dumps h) rest refl)
        (rw (back) (rw (drop_front _ (c.dumps h) rest refl) refl)))
    where
      overrun : ltb (length (c.dumps h ++ rest)) (length (c.dumps h)) ≡ false
      overrun = ground (arith, length-append (c.dumps h) rest)

  unpack-prefix :
      (n : ℕ) (rest : Bytes)
      → n < 4294967296
      → unpack (prefix n rest)
        ≡ some (record { magic_ok = true; version = 1; header_len = n; rest = rest })
  unfolding unpack prefix
  unpack-prefix n rest h =
      ap (λ m. some (record { magic_ok = true; version = 1; header_len = m; rest = rest }))
        (word32 n h)

  -- The header and the compressed body come back from the blob.
  peek-assemble :
      (h : Fields) (b blob : Bytes)
      → ReadsBack c h
      → assemble c h b ≡ returns blob
      → peek_keyframe_header c blob ≡ returns (h, c.deflate b)
  unfolding peek_keyframe_header framed
  peek-assemble h b blob back e =
      let (short, small, same) = assembled h b blob e in
      rw (← same) (
        rw (small, peek_keyframe_header)
          (rw
            (unpack-prefix (length (c.dumps h)) (c.dumps h ++ c.deflate b) (ground (arith, short)))
            (open_header-header h (c.deflate b) back)))

  decompress-deflate :
      (b : Bytes)
      → length b < max_decompressed_bytes
      → decompress_bounded c (c.deflate b) ≡ returns b
  unfolding decompress_bounded
  decompress-deflate b h =
      rw (laws.inflate-deflate max_decompressed_bytes b (ground arith), decompress_bounded) refl

  -- What it takes for `encode_keyframe` to return.
  pub record Encodes (scale : Float) (k : KeyframePacket) (blob : Bytes) : Type 0 where
    pub has_id : str_eq k.robot_id "" ≡ false
    pub has_scale : leb_float scale zero_float ≡ false
    pub has_pose : validate_pose k.t_odom_base ≡ returns k.t_odom_base
    pub has_session : valid_session k.session ≡ true
    pub has_heights : check_heights c k ≡ returns tt
    pub has_colors : HasColors k k.colors
    pub assembles :
        assemble c (header scale (length (quantized_points scale k.points)) k) (body scale k)
        ≡ returns blob

  encodes :
      (scale : Float) (k : KeyframePacket) (blob : Bytes)
      → encode_keyframe c scale k ≡ returns blob
      → Encodes scale k blob
  unfolding encode_keyframe
  encodes scale k blob e =
      let (u1, id_ok, e1) =
        bind-eq-returns (check (not (str_eq k.robot_id "")) empty_robot_id) _ e in
      let (u2, scale_ok, e2) =
        bind-eq-returns (check (not (leb_float scale zero_float)) bad_scale) _ e1 in
      let (u3, points_ok, e3) =
        bind-eq-returns (check (all finite_point k.points) bad_points) _ e2 in
      let (p, pose_ok, e4) = bind-eq-returns (validate_pose k.t_odom_base) _ e3 in
      let (u5, session_ok, e5) =
        bind-eq-returns (check (valid_session k.session) bad_session) _ e4 in
      let (u6, heights_ok, e6) = bind-eq-returns (check_heights c k) _ e5 in
      let (u7, colors_ok, e7) =
        bind-eq-returns (check (colors_fit c (length k.points) k.colors) bad_colors) _ e6 in
      record {
        has_id = not-true _ (passed _ _ u1 id_ok);
        has_scale = not-true _ (passed _ _ u2 scale_ok);
        has_pose = pose_same _ p pose_ok;
        has_session = passed _ _ u5 session_ok;
        has_heights = heights_ok;
        has_colors = colors_same k k.colors (passed _ _ u7 colors_ok);
        assembles = e7;
      }

  -- A keyframe that `encode_keyframe` returned is decoded to the packet that was encoded: its
  -- identity, session, pose, descriptor and heights as they were, the points on the grid of the
  -- scale with those beyond int16 left out, and the colours of the points that stayed. This
  -- holds where zlib, numpy and json give back what they were given, the descriptor has its shape,
  -- and the body is below the limit of the decoder.
  pub decode_keyframe-encode_keyframe :
      (scale : Float) (k : KeyframePacket) (blob : Bytes)
      → ReadsBack c (header scale (length (quantized_points scale k.points)) k)
      → HasShape k.descriptor
      → length (body scale k) < max_decompressed_bytes
      → encode_keyframe c scale k ≡ returns blob
      → decode_keyframe c blob ≡ returns (received c scale k)
  unfolding decode_keyframe
  decode_keyframe-encode_keyframe scale k blob back shape small e =
      let h = encodes scale k blob e in
      rw (peek-assemble _ _ blob back h.assembles) (
        rw (decompress-deflate (body scale k) small) (
          read_packet-header c laws scale k h.has_id h.has_scale h.has_pose h.has_session
            h.has_heights h.has_colors shape))
