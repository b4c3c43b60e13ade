-- ===== src/Snapshots/Samples.antt =====
-- A map of two by two cells that is published once, and one that grows to the left.
use swarmdeck.Prelude.{◌≡◌, refl, false, [], ◌∷◌, ◌&&◌, ◌==◌, if◌then◌else◌}
use swarmdeck.Prelude.Int.{pos, negsuc}
use swarmdeck.Snapshots.{GridMeta, Cells, unknown, init, same_extent}
use swarmdeck.Snapshots.Patches.{Agree, publishes, takes_patch, happen, run, reader_has_map}

abbrev small : GridMeta
small = record { resolution = 100; width = 2; height = 2; origin_x = pos 0; origin_y = pos 0 }

abbrev blank : Cells
blank y x = unknown

abbrev wall : Cells
wall y x = if y == 1 && x == 0 then pos 100 else unknown

reader_has_map_example :
    Agree
      (run (publishes wall ∷ []) (init small blank blank, blank)).0.meta
      (happen takes_patch (run (publishes wall ∷ []) (init small blank blank, blank))).1
      (run (publishes wall ∷ []) (init small blank blank, blank)).0.merged
unfolding init
reader_has_map_example =
    reader_has_map (publishes wall ∷ []) (init small blank blank, blank) (λ y x hy hx. refl)

abbrev large : GridMeta
large = record { resolution = 100; width = 3; height = 2; origin_x = negsuc 99; origin_y = pos 0 }

grown : same_extent small large ≡ false
unfolding same_extent
grown = refl
