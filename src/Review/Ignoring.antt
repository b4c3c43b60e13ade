-- ===== src/Review/Ignoring.antt =====
-- detect/review.py: what an ignored proposal suppresses from then on.
use swarmdeck.Prelude.{
  ℕ, String, Bool, true, ◌||◌, Option, some, List, [], ◌∷◌, ◌++◌, ◌≡◌, refl, arith, str_eq,
}
use swarmdeck.Review.{
  Store, Proposal, IgnoreZone, Answer, observe, ignore, is_ignored, zone_contains, proposal_id,
}
use swarmdeck.Review.Evidence.{Floats, Sample, centre_x, centre_y}
use swarmdeck.Review.Keyed.{find}
use Answer.{suppressed}

module _ (F : Floats) where
  open F use {Real, sub, hypot, leb}

  is_ignored-append :
      (cross : Bool) (cls : String) (x y : Real) (zs : List (IgnoreZone F)) (z : IgnoreZone F)
      → zone_contains F cross cls x y z ≡ true
      → is_ignored F cross cls x y (zs ++ z ∷ []) ≡ true
  unfolding is_ignored
  is_ignored-append cross cls x y [] z h = ground (arith, h)
  is_ignored-append cross cls x y (w ∷ zs) z h =
      ground (arith, is_ignored-append cross cls x y zs z h)

  -- The zone that `ignore` writes for a proposal.
  abbrev zone_of : Store F → Proposal F → IgnoreZone F
  zone_of s p = record {
    cls = p.cls;
    x = centre_x F p.acc;
    y = centre_y F p.acc;
    radius = s.ignore_radius;
  }

  observe-is_ignored :
      (s : Store F) (cls : String) (sample : Sample F) (observer : Option (Real × Real))
      (image : Option String)
      → is_ignored F s.cross_class_merge cls sample.x sample.y s.ignored ≡ true
      → observe F cls sample observer image s ≡ (s, suppressed)
  unfolding observe
  observe-is_ignored s cls sample observer image h = rw h refl

  ignore-find :
      (s : Store F) (i : ℕ) (p : Proposal F)
      → find (proposal_id F) i s.proposals ≡ some p
      → ((ignore F i s).0.ignored ≡ s.ignored ++ zone_of s p ∷ [])
        × ((ignore F i s).0.cross_class_merge ≡ s.cross_class_merge)
  unfolding ignore
  ignore-find s i p found = rw (found, ignore) (refl, refl)

  -- Once a pending proposal is ignored, an observation of its class (of any class, where classes
  -- merge) within the radius of its centre is suppressed and changes nothing.
  pub observe-ignore :
      (s : Store F) (i : ℕ) (p : Proposal F) (cls : String) (sample : Sample F)
      (observer : Option (Real × Real)) (image : Option String)
      → find (proposal_id F) i s.proposals ≡ some p
      → (s.cross_class_merge || str_eq cls p.cls) ≡ true
      → leb
          (hypot (sub sample.x (centre_x F p.acc)) (sub sample.y (centre_y F p.acc)))
          s.ignore_radius
        ≡ true
      → observe F cls sample observer image (ignore F i s).0 ≡ ((ignore F i s).0, suppressed)
  unfolding zone_contains
  observe-ignore s i p cls sample observer image found same near =
      let (zones, cross) = ignore-find s i p found in
      observe-is_ignored (ignore F i s).0 cls sample observer image (
        rw (zones, cross)
          (is_ignored-append s.cross_class_merge cls sample.x sample.y s.ignored (zone_of s p)
            (ground (arith, same, near))))
