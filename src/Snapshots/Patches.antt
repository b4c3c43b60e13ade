-- ===== src/Snapshots/Patches.antt =====
-- server/swarmdeck_server/mapsvc/synchronization.py: a reader who applies the patches has the map.
use swarmdeck.Prelude.{
  ℕ, zero, suc, ◌+◌, ◌-◌, ◌≤◌, ◌<◌, ◌≡◌, refl, sym, ap, ◌∙◌, subst, Bool, true, false, ◌&&◌, Option,
  none, some, List, [], ◌∷◌, ◌++◌, leb, ltb, if◌then◌else◌, keep, Bool-cases, inl, inr, ◌⊎◌, arith,
}
use swarmdeck.Prelude.Int.{ℤ, eqb_ℤ}
use swarmdeck.Snapshots.{
  GridMeta, Cells, MapSnapshot, same_extent, expand_patch_baseline, publish, Place, places, row,
  differs, changed, least, greatest, PatchCapture, patch_of, captured, capture_patch,
}

-- What a reader does with a patch: the cells of the box are overwritten.
abbrev pub inside : PatchCapture → ℕ → ℕ → Bool
inside c y x = leb c.y0 y && (ltb y c.y1 && (leb c.x0 x && ltb x c.x1))

unfoldable pub paste : PatchCapture → Cells → Cells
paste c view y x = if inside c y x then c.cells (y - c.y0) (x - c.x0) else view y x

abbrev Has : Place → List Place → Type 0
Has p [] = ⊥
Has p (q ∷ qs) = (q ≡ p) ⊎ Has p qs

Has-append_left : (p : Place) (xs ys : List Place) → Has p xs → Has p (xs ++ ys)
Has-append_left p [] ys h = absurd h
Has-append_left p (x ∷ xs) ys (inl e) = inl e
Has-append_left p (x ∷ xs) ys (inr h) = inr (Has-append_left p xs ys h)

Has-append_right : (p : Place) (xs ys : List Place) → Has p ys → Has p (xs ++ ys)
Has-append_right p [] ys h = h
Has-append_right p (x ∷ xs) ys h = inr (Has-append_right p xs ys h)

place : ℕ → ℕ → Place
place y x = record { y = y; x = x }

Has-row : (y x w : ℕ) → x < w → Has (place y x) (row y w)
unfolding place
Has-row y x zero h = absurd (omega (arith, h))
Has-row y x (suc w) h = elim (Bool-cases (ltb x w)) [
  | inl e ↦ Has-append_left _ (row y w) _ (Has-row y x w (ground (arith, e)))
  | inr e ↦
      let last : w ≡ x = ground (arith, e, h) in
      Has-append_right _ (row y w) _ (inl (λ i. record { y = y; x = last i }))
]

Has-places : (y x h w : ℕ) → y < h → x < w → Has (place y x) (places h w)
Has-places y x zero w hy hx = absurd (omega (arith, hy))
Has-places y x (suc h) w hy hx = elim (Bool-cases (ltb y h)) [
  | inl e ↦ Has-append_left _ (places h w) _ (Has-places y x h w (ground (arith, e)) hx)
  | inr e ↦
      let last : y ≡ h = ground (arith, e, hy) in
      Has-append_right _ (places h w) (row h w)
        (subst (λ k. Has (place y x) (row k w)) last (Has-row y x w hx))
]

Has-keep :
    (t : Place → Bool) (p : Place) (ps : List Place) → t p ≡ true → Has p ps → Has p (keep t ps)
Has-keep t p [] e h = absurd h
Has-keep t p (q ∷ qs) e (inl at_head) = rw (ap t at_head ∙ e) (inl at_head)
Has-keep t p (q ∷ qs) e (inr behind) = elim (Bool-cases (t q)) [
  | inl kept ↦ rw kept (inr (Has-keep t p qs e behind))
  | inr left ↦ rw left (Has-keep t p qs e behind)
]

least_lem : (f : Place → ℕ) (q p : Place) (ps : List Place) → Has q (p ∷ ps) → least f p ps ≤ f q
unfolding least
least_lem f q p [] (inl e) = omega (arith, ap f e)
least_lem f q p [] (inr h) = absurd h
least_lem f q p (r ∷ ps) (inl e) = ground (arith, ap f e)
least_lem f q p (r ∷ ps) (inr h) = ground (arith, least_lem f q r ps h)

greatest_lem :
    (f : Place → ℕ) (q p : Place) (ps : List Place) → Has q (p ∷ ps) → f q ≤ greatest f p ps
unfolding greatest
greatest_lem f q p [] (inl e) = omega (arith, ap f e)
greatest_lem f q p [] (inr h) = absurd h
greatest_lem f q p (r ∷ ps) (inl e) = ground (arith, ap f e)
greatest_lem f q p (r ∷ ps) (inr h) = ground (arith, greatest_lem f q r ps h)

-- Two arrays agree on the cells of an extent.
abbrev pub Agree : GridMeta → Cells → Cells → Type 0
Agree m a b = (y x : ℕ) → y < m.height → x < m.width → a y x ≡ b y x

eqb→eq : (a b : ℤ) → eqb_ℤ a b ≡ true → a ≡ b
eqb→eq a b h = ground (arith, h)

inside-le : (c : PatchCapture) (y x : ℕ) → inside c y x ≡ true → (c.y0 ≤ y) × (c.x0 ≤ x)
inside-le c y x h = ground (arith, h)

module _ (s : MapSnapshot) where
  -- A cell that is in no place of the list is unchanged.
  unchanged :
      (y x : ℕ)
      → y < s.meta.height
      → x < s.meta.width
      → Has (place y x) (changed s) ⊎ (s.merged y x ≡ s.patch_prev y x)
  unfolding place
  unchanged y x hy hx = elim (Bool-cases (eqb_ℤ (s.merged y x) (s.patch_prev y x))) [
    | inl same ↦ inr (eqb→eq _ _ same)
    | inr other ↦ inl (
        Has-keep (differs s) (place y x) (places s.meta.height s.meta.width) (rw other refl)
          (Has-places y x s.meta.height s.meta.width hy hx))
  ]

  Has-inside :
      (p : Place) (ps : List Place) (y x : ℕ)
      → Has (place y x) (p ∷ ps)
      → inside (patch_of s p ps) y x ≡ true
  unfolding patch_of place
  Has-inside p ps y x h = ground (
    arith,
    least_lem (λ (q : Place). q.y) (place y x) p ps h,
    least_lem (λ (q : Place). q.x) (place y x) p ps h,
    greatest_lem (λ (q : Place). q.y) (place y x) p ps h,
    greatest_lem (λ (q : Place). q.x) (place y x) p ps h,
  )

  -- What a patch puts into its box is the map.
  paste-inside :
      (p : Place) (ps : List Place) (view : Cells) (y x : ℕ)
      → inside (patch_of s p ps) y x ≡ true
      → paste (patch_of s p ps) view y x ≡ s.merged y x
  unfolding paste patch_of
  paste-inside p ps view y x h =
      let c = patch_of s p ps in
      let rows : c.y0 + (y - c.y0) ≡ y = ground (arith, inside-le c y x h) in
      let columns : c.x0 + (x - c.x0) ≡ x = ground (arith, inside-le c y x h) in
      rw (h, paste) (λ i. s.merged (rows i) (columns i))

  paste_outside :
      (c : PatchCapture) (view : Cells) (y x : ℕ)
      → inside c y x ≡ false
      → paste c view y x ≡ view y x
  unfolding paste
  paste_outside c view y x h = rw (h, paste) refl

  -- A reader whose copy was the last patch's map has the map after the next.
  pub data Captures (view : Cells) : Option PatchCapture × MapSnapshot → Type 0 where
    no_patch : Agree s.meta view s.merged → Captures view (none, s)
    patch :
        (c : PatchCapture)
        → Agree s.meta (paste c view) s.merged
        → c.seq ≡ s.seq + 1
        → Captures view (some c, record s { patch_prev = s.merged; seq = s.seq + 1 })

  captured-Captures :
      (ps : List Place) (view : Cells)
      → changed s ≡ ps
      → Agree s.meta view s.patch_prev
      → Captures view (captured s ps)
  unfolding captured
  captured-Captures [] view e agree = no_patch λ y x hy hx. elim (unchanged y x hy hx) [
    | inl has ↦ absurd (subst (Has (place y x)) e has)
    | inr same ↦ agree y x hy hx ∙ sym same
  ]
  captured-Captures (p ∷ ps) view e agree =
      patch (patch_of s p ps)
        (λ y x hy hx. elim (Bool-cases (inside (patch_of s p ps) y x)) [
          | inl within ↦ paste-inside p ps view y x within
          | inr beyond ↦ elim (unchanged y x hy hx) [
            | inl has ↦ absurd (cc (Has-inside p ps y x (subst (Has (place y x)) e has), beyond))
            | inr same ↦
                paste_outside (patch_of s p ps) view y x beyond ∙ (agree y x hy hx ∙ sym same)
          ]
        ])
        (unfold patch_of in refl)

  pub capture_patch-Captures :
      (view : Cells) → Agree s.meta view s.patch_prev → Captures view (capture_patch s)
  unfolding capture_patch
  capture_patch-Captures view agree = captured-Captures (changed s) view refl agree

-- What happens to the store and to a reader: a map of the same extent is published, or the next
-- patch is taken and applied.
pub data Event : Type 0 where
  publishes : Cells → Event
  takes_patch : Event

abbrev pub applied : Option PatchCapture → Cells → Cells
applied none view = view
applied (some c) view = paste c view

unfoldable pub happen : Event → MapSnapshot × Cells → MapSnapshot × Cells
happen (publishes m) (s, view) = (publish s.meta m s, view)
happen takes_patch (s, view) = ((capture_patch s).1, applied (capture_patch s).0 view)

unfoldable pub run : List Event → MapSnapshot × Cells → MapSnapshot × Cells
run [] w = w
run (e ∷ es) w = run es (happen e w)

-- The reader's copy is the baseline of the next patch.
abbrev pub InStep : MapSnapshot × Cells → Type 0
InStep (s, view) = Agree s.meta view s.patch_prev

same_extent_refl : (m : GridMeta) → same_extent m m ≡ true
unfolding same_extent
same_extent_refl m = ground arith

pub baseline_kept : (m : GridMeta) (a : Cells) (y x : ℕ) → expand_patch_baseline a m m y x ≡ a y x
unfolding expand_patch_baseline
baseline_kept m a y x = rw (same_extent_refl m, expand_patch_baseline) refl

happen-InStep : (e : Event) (w : MapSnapshot × Cells) → InStep w → InStep (happen e w)
unfolding happen publish
happen-InStep (publishes m) (s, view) h =
    λ y x hy hx. h y x hy hx ∙ sym (baseline_kept s.meta s.patch_prev y x)
happen-InStep takes_patch (s, view) h = taken (capture_patch-Captures s view h)
  where
    taken :
        {r : Option PatchCapture × MapSnapshot} → Captures s view r → InStep (r.1, applied r.0 view)
    taken (no_patch agree) = h
    taken (patch c agree number) = agree

run-InStep : (es : List Event) (w : MapSnapshot × Cells) → InStep w → InStep (run es w)
unfolding run
run-InStep [] w h = h
run-InStep (e ∷ es) w h = run-InStep es (happen e w) (happen-InStep e w h)

-- After any publications and patches, a reader who was in step with the store's baseline and takes
-- the next patch has the map that is then published, in every cell of the extent; and where there is
-- no patch to take, the reader has it already.
pub reader_has_map :
    (es : List Event) (w : MapSnapshot × Cells)
    → InStep w
    → Agree (run es w).0.meta (happen takes_patch (run es w)).1 (run es w).0.merged
unfolding happen
reader_has_map es w h =
    taken (run es w).0 (run es w).1
      (capture_patch-Captures (run es w).0 (run es w).1 (run-InStep es w h))
  where
    taken :
        (s : MapSnapshot) (view : Cells) {r : Option PatchCapture × MapSnapshot}
        → Captures s view r
        → Agree s.meta (applied r.0 view) s.merged
    taken s view (no_patch agree) = agree
    taken s view (patch c agree number) = agree
