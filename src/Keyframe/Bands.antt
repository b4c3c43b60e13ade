-- ===== src/Keyframe/Bands.antt =====
-- adapters/protocol/swarmdeck_protocol/keyframe.py: the heights in the header are found again.
use swarmdeck.Prelude.{
  ℕ, ◌≡◌, refl, ◌∙◌, bind-eq-returns, ap, sym, true, false, Option, none, some, Bool-cases, inl,
  inr, returns,
}
use swarmdeck.Prelude.Float.{Float}
use swarmdeck.Prelude.Json.{Fields, obj, field?}
use swarmdeck.Keyframe.{KeyframePacket, Codec, HeightBand}
use swarmdeck.Keyframe.Heights.{
  any_height, band_spec, without_nulls, validate_height_band, accepted_band,
  validate_height_band-without_nulls, fits_band,
}
use swarmdeck.Keyframe.Encode.{header, band_header, check_heights}
use swarmdeck.Keyframe.Headers.{band_found, color_last}

no_heights :
    (g low high lidar : Option Float)
    → any_height g low high lidar ≡ false
    → (g ≡ none) × (low ≡ none) × (high ≡ none) × (lidar ≡ none)
no_heights none none none none h = (refl, refl, refl, refl)
no_heights (some g) low high lidar h = cc
no_heights none (some low) high lidar h = cc
no_heights none none (some high) lidar h = cc
no_heights none none none (some lidar) h = cc

-- The heights of the packet are those of the band, if there is one.
pub record HasBand (k : KeyframePacket) (b : Option HeightBand) : Type 0 where
  pub ground_is : elim b [ none ↦ none | some h ↦ some h.ground ] ≡ k.ground_z
  pub low_is : elim b [ none ↦ none | some h ↦ some h.low ] ≡ k.min_height
  pub high_is : elim b [ none ↦ none | some h ↦ some h.high ] ≡ k.max_height
  pub lidar_is : elim b [ none ↦ none | some h ↦ h.lidar ] ≡ k.lidar_height

-- Whatever heights the band's are, they are read back from the spec without its nulls.
band_read :
    (c : Codec) (b : HeightBand) (g low high lidar : Option Float)
    → g ≡ some b.ground
    → low ≡ some b.low
    → high ≡ some b.high
    → lidar ≡ b.lidar
    → fits_band b ≡ true
    → validate_height_band c (some (obj (without_nulls (band_spec g low high lidar))))
      ≡ returns (some b)
band_read c b g low high lidar hg hl hh hi ok =
    rw (hg, hl, hh, hi) (validate_height_band-without_nulls c b ok)

module _ (scale : Float) (n : ℕ) (k : KeyframePacket) (c : Codec) where
  abbrev spec : Fields
  spec = band_spec k.ground_z k.min_height k.max_height k.lidar_height

  spec_found :
      any_height k.ground_z k.min_height k.max_height k.lidar_height ≡ true
      → field? "height_band" (header scale n k) ≡ some (obj (without_nulls spec))
  unfolding band_header
  spec_found e = rw (band_found scale n k) (rw e (rw (color_last scale n k, field?) refl))

  spec_missing :
      any_height k.ground_z k.min_height k.max_height k.lidar_height ≡ false
      → field? "height_band" (header scale n k) ≡ none
  unfolding band_header
  spec_missing e = rw (band_found scale n k) (rw e (color_last scale n k))

  spec_fits :
      any_height k.ground_z k.min_height k.max_height k.lidar_height ≡ true
      → check_heights c k ≡ returns tt
      → (r : Option HeightBand) × (validate_height_band c (some (obj spec)) ≡ returns r)
  unfolding check_heights
  spec_fits e h =
      let (r, fits, _) =
        bind-eq-returns (validate_height_band c (some (obj spec))) (λ _. returns tt) (rw e at h) in
      (r, fits)

  spec_read :
      any_height k.ground_z k.min_height k.max_height k.lidar_height ≡ true
      → validate_height_band c (field? "height_band" (header scale n k))
        ≡ validate_height_band c (some (obj (without_nulls spec)))
  spec_read e = ap (validate_height_band c) (spec_found e)

  -- Heights that the encoder accepted are read back as they were given, and none if none were.
  pub heights_found :
      check_heights c k ≡ returns tt
      → (b : Option HeightBand) × (validate_height_band c (field? "height_band" (header scale n k))
          ≡ returns b)
        × HasBand k b
  heights_found h =
      elim (Bool-cases (any_height k.ground_z k.min_height k.max_height k.lidar_height)) [
        | inl e ↦
            let (r, fits) = spec_fits e h in
            let (b, g, low, high, lidar, ok) =
              accepted_band c k.ground_z k.min_height k.max_height k.lidar_height r fits in
            (
              some b,
              spec_read e ∙ band_read c b _ _ _ _ g low high lidar ok,
              record {
                ground_is = sym g;
                low_is = sym low;
                high_is = sym high;
                lidar_is = sym lidar;
              },
            )
        | inr e ↦
            let (g, low, high, lidar) =
              no_heights k.ground_z k.min_height k.max_height k.lidar_height e in
            (
              none,
              rw (spec_missing e) (unfold validate_height_band in refl),
              record {
                ground_is = sym g;
                low_is = sym low;
                high_is = sym high;
                lidar_is = sym lidar;
              },
            )
      ]
