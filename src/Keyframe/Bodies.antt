-- ===== src/Keyframe/Bodies.antt =====
-- adapters/protocol/swarmdeck_protocol/keyframe.py: the body's bytes are read back.
use swarmdeck.Prelude.{
  ℕ, suc, ◌*◌, ◌≤◌, ◌≡◌, refl, ap, some, List, [], ◌∷◌, ◌++◌, arith, length, drop, take, All,
  drop-append, take-append, Option-cases, inl, inr,
}
use swarmdeck.Prelude.Int.{ℤ, pos, negsuc, abs}
use swarmdeck.Prelude.Float.{Float, fin, nan, inf, neg_inf}
use swarmdeck.Keyframe.{Bytes, Point, Rgba, int16_limit}
use swarmdeck.Keyframe.Words.{signed16-word16}
use swarmdeck.Keyframe.Encode.{
  quantized, quantized_point, quantized_points, colors_in_range, point_bytes, color_bytes,
}
use swarmdeck.Keyframe.Decode.{read_points, read_colors}

abbrev pub InRange : Point ℤ → Type 0
InRange q = (abs q.x ≤ int16_limit) × (abs q.y ≤ int16_limit) × (abs q.z ≤ int16_limit)

quantized_range : (s v : Float) (z : ℤ) → quantized s v ≡ some z → abs z ≤ int16_limit
unfolding quantized
quantized_range (fin (pos s)) (fin v) z h = ground arith
quantized_range inf (fin v) z h = ground arith
quantized_range (fin (negsuc s)) v z h = cc
quantized_range nan v z h = cc
quantized_range neg_inf v z h = cc
quantized_range (fin (pos s)) nan z h = cc
quantized_range (fin (pos s)) inf z h = cc
quantized_range (fin (pos s)) neg_inf z h = cc
quantized_range inf nan z h = cc
quantized_range inf inf z h = cc
quantized_range inf neg_inf z h = cc

quantized_point-InRange :
    (s : Float) (p : Point Float) (q : Point ℤ) → quantized_point s p ≡ some q → InRange q
unfolding quantized_point
quantized_point-InRange s p q h =
    ground (arith, quantized_range s p.x q.x, quantized_range s p.y q.y, quantized_range s p.z q.z)

pub quantized_points-InRange :
    (s : Float) (ps : List (Point Float)) → All InRange (quantized_points s ps)
unfolding quantized_points
quantized_points-InRange s [] = tt
quantized_points-InRange s (p ∷ ps) = elim (Option-cases (quantized_point s p)) [
  | inl e ↦ rw (e, quantized_points) (quantized_points-InRange s ps)
  | inr (q, e) ↦
      rw (e, quantized_points) (quantized_point-InRange s p q e, quantized_points-InRange s ps)
]

pub length-colors_in_range :
    (s : Float) (ps : List (Point Float)) (ks : List Rgba)
    → length ks ≡ length ps
    → length (colors_in_range s ps ks) ≡ length (quantized_points s ps)
unfolding colors_in_range quantized_points
length-colors_in_range s [] ks h = refl
length-colors_in_range s (p ∷ ps) [] h = absurd (omega (arith, h))
length-colors_in_range s (p ∷ ps) (k ∷ ks) h =
    let ih = length-colors_in_range s ps ks (omega (arith, h)) in
    elim (Option-cases (quantized_point s p)) [
      | inl e ↦ rw (e, colors_in_range, quantized_points) ih
      | inr (q, e) ↦ rw (e, colors_in_range, quantized_points) (ap suc ih)
    ]

pub length-point_bytes : (qs : List (Point ℤ)) → length (point_bytes qs) ≡ length qs * 3 * 2
unfolding point_bytes
length-point_bytes [] = refl
length-point_bytes (q ∷ qs) = omega (arith, length-point_bytes qs)

pub length-color_bytes : (ks : List Rgba) → length (color_bytes ks) ≡ length ks * 4
unfolding color_bytes
length-color_bytes [] = refl
length-color_bytes (k ∷ ks) = omega (arith, length-color_bytes ks)

pub read_points-point_bytes :
    (qs : List (Point ℤ)) (rest : Bytes)
    → All InRange qs
    → read_points (length qs) (point_bytes qs ++ rest) ≡ qs
unfolding read_points point_bytes
read_points-point_bytes [] rest h = refl
read_points-point_bytes (q ∷ qs) rest h =
    rw
      (
        signed16-word16 q.x h.0.0,
        signed16-word16 q.y h.0.1,
        signed16-word16 q.z h.0.2,
        read_points-point_bytes qs rest h.1,
      )
      refl

pub read_colors-color_bytes : (ks : List Rgba) → read_colors (length ks) (color_bytes ks) ≡ ks
unfolding read_colors color_bytes
read_colors-color_bytes [] = refl
read_colors-color_bytes (k ∷ ks) = ap (λ r. k ∷ r) (read_colors-color_bytes ks)

-- What stands behind `n` bytes, and the `n` bytes.
pub drop_front {ℓ} : {A : Type ℓ} (n : ℕ) (xs ys : List A) → length xs ≡ n → drop n (xs ++ ys) ≡ ys
drop_front n xs ys h = rw (← h) (drop-append xs ys)

pub take_front {ℓ} : {A : Type ℓ} (n : ℕ) (xs ys : List A) → length xs ≡ n → take n (xs ++ ys) ≡ xs
take_front n xs ys h = rw (← h) (take-append xs ys)
