-- ===== src/Keyframe/Heights.antt =====
-- adapters/protocol/swarmdeck_protocol/keyframe.py: `_validate_height_band`, and how the header
-- carries the heights.
use swarmdeck.Prelude.{
  ◌≡◌, refl, String, Bool, true, false, Option, none, some, Outcome, returns, ◌>>=◌, ◌&&◌, ◌||◌,
  not, Bool-cases, inl, inr,
}
use swarmdeck.Prelude.Float.{Float, is_finite, ltb_float, leb_float, zero_float}
use swarmdeck.Prelude.Json.{Json, Fields, null, num, obj, end, field, field?, to_float}
use swarmdeck.Keyframe.{Raised, refuse, need, check, Codec, HeightBand, bad_height_band}

abbrev fits_lidar : Option Float → Bool
fits_lidar none = true
fits_lidar (some f) = is_finite f && not (ltb_float f zero_float)

-- The checks on the numbers that were read.
unfoldable pub fits_band : HeightBand → Bool
fits_band b =
    (is_finite b.ground && (is_finite b.low && is_finite b.high))
    && (not (ltb_float b.low zero_float || leb_float b.high b.low) && fits_lidar b.lidar)

-- A value or null, as `json.dumps` writes a float or None.
abbrev pub optional : Option Float → Json
optional none = null
optional (some f) = num f

-- `any(value is not None for value in (ground_z, ...))`
abbrev pub any_height : Option Float → Option Float → Option Float → Option Float → Bool
any_height none none none none = false
any_height g low high lidar = true

-- `height_band_spec`
abbrev pub band_spec : Option Float → Option Float → Option Float → Option Float → Fields
band_spec g low high lidar = field "ground_z" (optional g) (
    field "min_height" (optional low)
      (field "max_height" (optional high) (field "lidar_height" (optional lidar) end)))

-- `{key: value for key, value in height_band_spec.items() if value is not None}`
abbrev pub without_nulls : Fields → Fields
without_nulls end = end
without_nulls (field k null fs) = without_nulls fs
without_nulls (field k v fs) = field k v (without_nulls fs)

module _ (c : Codec) where
  -- `float(spec[key])`
  unfoldable pub float_field : String → Fields → Option Float
  float_field key fs = elim (field? key fs) [ none ↦ none | some v ↦ to_float c.read_float v ]

  optional_float : Json → Option (Option Float)
  optional_float null = some none
  optional_float v = elim (to_float c.read_float v) [ none ↦ none | some f ↦ some (some f) ]

  -- `spec.get("lidar_height")`: absent and null are no height, and a text that is no number fails.
  unfoldable pub lidar_field : Fields → Option (Option Float)
  unfolding optional_float
  lidar_field fs = elim (field? "lidar_height" fs) [ none ↦ some none | some v ↦ optional_float v ]

  unfoldable pub read_band : Fields → Outcome Raised (Option HeightBand)
  unfolding float_field lidar_field
  read_band fs = do
    g ← need (float_field "ground_z" fs) bad_height_band
    low ← need (float_field "min_height" fs) bad_height_band
    high ← need (float_field "max_height" fs) bad_height_band
    lidar ← need (lidar_field fs) bad_height_band
    let band : HeightBand = record { ground = g; low = low; high = high; lidar = lidar }
    check (fits_band band) bad_height_band >>= λ _. returns (some band)

  unfoldable pub validate_height_band : Option Json → Outcome Raised (Option HeightBand)
  unfolding read_band
  validate_height_band none = returns none
  validate_height_band (some null) = returns none
  validate_height_band (some (obj fs)) = read_band fs
  validate_height_band (some v) = refuse bad_height_band

  -- Heights that the encoder accepts are there but for the lidar's, and fit.
  pub accepted_band :
      (g low high lidar : Option Float) (result : Option HeightBand)
      → validate_height_band (some (obj (band_spec g low high lidar))) ≡ returns result
      → (b : HeightBand) × (g ≡ some b.ground)
        × (low ≡ some b.low)
        × (high ≡ some b.high)
        × (lidar ≡ b.lidar)
        × (fits_band b ≡ true)
  unfolding validate_height_band
  accepted_band none low high lidar r h = cc
  accepted_band (some g) none high lidar r h = cc
  accepted_band (some g) (some low) none lidar r h = cc
  accepted_band (some g) (some low) (some high) none r h =
      let b : HeightBand = record { ground = g; low = low; high = high; lidar = none } in
      elim (Bool-cases (fits_band b)) [
        | inl e ↦ (b, refl, refl, refl, refl, e)
        | inr e ↦ absurd (cc (rw e at h))
      ]
  accepted_band (some g) (some low) (some high) (some l) r h =
      let b : HeightBand = record { ground = g; low = low; high = high; lidar = some l } in
      elim (Bool-cases (fits_band b)) [
        | inl e ↦ (b, refl, refl, refl, refl, e)
        | inr e ↦ absurd (cc (rw e at h))
      ]

  abbrev kept_band : HeightBand → Fields
  kept_band b = without_nulls (band_spec (some b.ground) (some b.low) (some b.high) b.lidar)

  kept_band_fits :
      (g low high : Float) (lidar : Option Float)
      → let b : HeightBand = record { ground = g; low = low; high = high; lidar = lidar } in
        fits_band b ≡ true → validate_height_band (some (obj (kept_band b))) ≡ returns (some b)
  unfolding validate_height_band
  kept_band_fits g low high none h = rw h refl
  kept_band_fits g low high (some l) h = rw h refl

  -- The decoder reads them back from the header, where a missing height does not stand.
  pub validate_height_band-without_nulls :
      (b : HeightBand)
      → fits_band b ≡ true
      → validate_height_band (
          some (obj (without_nulls (band_spec (some b.ground) (some b.low) (some b.high) b.lidar))))
        ≡ returns (some b)
  validate_height_band-without_nulls b h = kept_band_fits b.ground b.low b.high b.lidar h
