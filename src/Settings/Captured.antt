-- ===== src/Settings/Captured.antt =====
-- config/detection.py: `capture_floors` against `floor_for`.
use swarmdeck.Prelude.{
  ◌≡◌, refl, sym, ap, subst, ◌∙◌, String, false, ◌||◌, Option, none, some, List, [], ◌∷◌, ◌++◌,
  str_eq, str_eq_iff, contains, contains-append, if◌then◌else◌, Bool-cases, inl, inr, All, arith,
}
use mathlib.Core.Option.{some_inj}
use swarmdeck.Prelude.Dict
use swarmdeck.Prelude.Dict.{Dict, get-put}
use swarmdeck.Prelude.Float.{Float}
use swarmdeck.Settings.Reading.{round2}
use swarmdeck.Settings.Detection.{
  least_from, Target, Floors, or_floor, found_in, value_or, add_candidate, override_candidates,
  override_names, capture, catalog_floors, floor_for, candidates, capture_all, captured_names,
  capture_floors,
}
use swarmdeck.Settings.Cents.{IsCents, NoAbove, captured_of, captured_of-all}

-- Every value of the dictionary.
abbrev pub Values {ℓ} : {V : Type ℓ} → (V → Type 0) → Dict V → Type 0
Values P d = All (λ e. P e.1) d

pub get-Values {ℓ} :
    {V : Type ℓ} (P : V → Type 0) (k : String) (d : Dict V) {v : V}
    → Values P d
    → Dict.get k d ≡ some v
    → P v
unfolding Dict.get
get-Values P k [] h e = cc
get-Values P k ((j, w) ∷ d) {v = v} h e = elim (Bool-cases (str_eq j k)) [
  | inl q ↦
      let own : Dict.get k ((j, w) ∷ d) ≡ some w = rw q refl in
      subst P (some_inj.0 (sym own ∙ e)) h.0
  | inr q ↦
      let later : Dict.get k ((j, w) ∷ d) ≡ Dict.get k d = rw q refl in
      get-Values P k d h.1 (sym later ∙ e)
]

pub put-Values {ℓ} :
    {V : Type ℓ} (P : V → Type 0) (k : String) (v : V) (d : Dict V)
    → P v
    → Values P d
    → Values P (Dict.put k v d)
unfolding Dict.put
put-Values P k v [] hv h = (hv, tt)
put-Values P k v ((j, w) ∷ d) hv h = elim (Bool-cases (str_eq j k)) [
  | inl q ↦ rw q (hv, h.1)
  | inr q ↦ rw q (h.0, put-Values P k v d hv h.1)
]

get-absent : (k : String) (d : Floors) → contains k (Dict.keys d) ≡ false → Dict.get k d ≡ none
unfolding Dict.get
get-absent k [] h = refl
get-absent k ((j, v) ∷ d) h = ground (arith, get-absent k d)

no_candidates :
    (k : String) (ov : Dict Floors)
    → contains k (override_names ov) ≡ false
    → override_candidates k ov ≡ []
unfolding override_names override_candidates
no_candidates k [] h = refl
no_candidates k ((robot, fs) ∷ ov) h =
    let both : (contains k (Dict.keys fs) || contains k (override_names ov)) ≡ false =
      sym (contains-append k (Dict.keys fs) (override_names ov)) ∙ h in
    rw (get-absent k fs (ground arith)) (no_candidates k ov (ground arith))

or_floor_twice : (c g : Option Float) → or_floor c (or_floor c g) ≡ or_floor c g
or_floor_twice none g = refl
or_floor_twice (some f) g = refl

add_candidate-All :
    (P : Float → Type 0) (o : Option Float) (fs : List Float)
    → ((f : Float) → o ≡ some f → P f)
    → All P fs
    → All P (add_candidate o fs)
add_candidate-All P none fs h hs = hs
add_candidate-All P (some f) fs h hs = (h f refl, hs)

overrides-All :
    (j : String) (ov : Dict Floors)
    → Values (Values IsCents) ov
    → All IsCents (override_candidates j ov)
unfolding override_candidates
overrides-All j [] h = tt
overrides-All j ((robot, fs) ∷ ov) h =
    add_candidate-All IsCents (Dict.get j fs) (override_candidates j ov)
      (λ f e. get-Values IsCents j fs h.0 e) (overrides-All j ov h.1)

-- What is true of all candidates is true of a part.
candidate-All :
    (P : Float → Type 0) (o : Option Float) (fs : List Float) {f : Float}
    → All P (add_candidate o fs)
    → o ≡ some f
    → P f
candidate-All P none fs h e = cc
candidate-All P (some g) fs h e = subst P (some_inj.0 e) h.0

rest-All :
    (P : Float → Type 0) (o : Option Float) (fs : List Float)
    → All P (add_candidate o fs)
    → All P fs
rest-All P none fs h = h
rest-All P (some g) fs h = h.1

override-All :
    (P : Float → Type 0) (j robot : String) (ov : Dict Floors) {f : Float}
    → All P (override_candidates j ov)
    → found_in j (Dict.get robot ov) ≡ some f
    → P f
unfolding override_candidates Dict.get
override-All P j robot [] h e = cc
override-All P j robot ((name, fs) ∷ ov) h e = elim (Bool-cases (str_eq name robot)) [
  | inl q ↦
      let own : Dict.get robot ((name, fs) ∷ ov) ≡ some fs = rw q refl in
      candidate-All P (Dict.get j fs) (override_candidates j ov) h (ap (found_in j) (sym own) ∙ e)
  | inr q ↦
      let later : Dict.get robot ((name, fs) ∷ ov) ≡ Dict.get robot ov = rw q refl in
      override-All P j robot ov (rest-All P (Dict.get j fs) (override_candidates j ov) h)
        (ap (found_in j) (sym later) ∙ e)
]

either-All :
    (P : Float → Type 0) (o p : Option Float) {f : Float}
    → (o ≡ some f → P f)
    → (p ≡ some f → P f)
    → or_floor o p ≡ some f
    → P f
either-All P none p ho hp e = hp e
either-All P (some g) p ho hp e = ho e

or_none : (o : Option Float) → or_floor o none ≡ o
or_none none = refl
or_none (some f) = refl

capture-get :
    (k j : String) (fs : List Float) (d : Floors)
    → Dict.get j (capture k fs d)
      ≡ (if str_eq k j then or_floor (captured_of fs) (Dict.get j d) else Dict.get j d)
capture-get k j [] d = elim (Bool-cases (str_eq k j)) [ inl q ↦ rw q refl | inr q ↦ rw q refl ]
capture-get k j (f ∷ fs) d = get-put k j _ d

-- The floor that `floor_for` finds, where the catalog has the class.
shown-NoAbove :
    (c : Float) (o p q : Option Float) {t : Float}
    → q ≡ some t
    → ((f : Float) → or_floor o (or_floor p q) ≡ some f → NoAbove c f)
    → NoAbove c (value_or (or_floor o (or_floor p q)))
shown-NoAbove c (some f) p q e h = h f refl
shown-NoAbove c none (some f) q e h = h f refl
shown-NoAbove c none none (some f) e h = h f refl
shown-NoAbove c none none none e h = cc

module _ (catalog : List Target) (fleet : Floors) (overrides : Dict Floors) where
  abbrev asked : String → List Float
  asked = candidates catalog fleet overrides

  capture_all-get :
      (j : String) (names : List String) (d : Floors)
      → Dict.get j (capture_all catalog fleet overrides names d) ≡ (
          if contains j names
          then or_floor (captured_of (asked j)) (Dict.get j d)
          else Dict.get j d)
  unfolding capture_all
  capture_all-get j [] d = refl
  capture_all-get j (k ∷ names) d =
      let d' : Floors = capture k (asked k) d in
      let own : Option Float = captured_of (asked j) in
      elim (Bool-cases (str_eq k j)) [
        | inl q ↦
            let first : Dict.get j d' ≡ or_floor own (Dict.get j d) =
              capture-get k j (asked k) d
              ∙ rw q (
                  ap (λ x. or_floor (captured_of (asked x)) (Dict.get j d))
                    ((str_eq_iff k j).0 q)) in
            rw q (
              capture_all-get j names d' ∙ elim (Bool-cases (contains j names)) [
                | inl c ↦ rw (c, first) (or_floor_twice own (Dict.get j d))
                | inr c ↦ rw (c, first) refl
              ])
        | inr q ↦
            let same : Dict.get j d' ≡ Dict.get j d = capture-get k j (asked k) d ∙ rw q refl in
            rw q (capture_all-get j names d' ∙ rw same refl)
      ]

  all_known :
      (j : String) → contains j (captured_names catalog fleet overrides) ≡ false → asked j ≡ []
  all_known j h =
      let rest : List String = Dict.keys fleet ++ override_names overrides in
      let outer : (contains j (Dict.keys (catalog_floors catalog)) || contains j rest) ≡ false =
        sym (contains-append j (Dict.keys (catalog_floors catalog)) rest) ∙ h in
      let inner : (contains j (Dict.keys fleet) || contains j (override_names overrides)) ≡ false =
        sym (contains-append j (Dict.keys fleet) (override_names overrides)) ∙ (ground arith) in
      rw
        (
          get-absent j (catalog_floors catalog) (ground arith),
          get-absent j fleet (ground arith),
          no_candidates j overrides (ground arith),
        )
        refl

  -- What is captured of a class is the least of what is asked for it.
  pub capture_floors-get :
      (j : String) → Dict.get j (capture_floors catalog fleet overrides) ≡ captured_of (asked j)
  unfolding capture_floors Dict.get
  capture_floors-get j =
      let names : List String = captured_names catalog fleet overrides in
      capture_all-get j names [] ∙ elim (Bool-cases (contains j names)) [
        | inl c ↦ rw c (or_none (captured_of (asked j)))
        | inr c ↦ rw (c, all_known j c) refl
      ]

  candidates-IsCents :
      (j : String)
      → Values IsCents (catalog_floors catalog)
      → Values IsCents fleet
      → Values (Values IsCents) overrides
      → All IsCents (asked j)
  candidates-IsCents j hc hf ho =
      add_candidate-All IsCents (Dict.get j (catalog_floors catalog)) _
        (λ f e. get-Values IsCents j (catalog_floors catalog) hc e)
        (add_candidate-All IsCents (Dict.get j fleet) _ (λ f e. get-Values IsCents j fleet hf e)
          (overrides-All j overrides ho))

  -- A floor that `floor_for` finds is one of those that are asked for.
  found-All :
      (P : Float → Type 0) (j robot : String) {f : Float}
      → All P (asked j)
      → or_floor
          (found_in j (Dict.get robot overrides))
          (or_floor (Dict.get j fleet) (Dict.get j (catalog_floors catalog)))
        ≡ some f
      → P f
  found-All P j robot h e =
      let behind : List Float =
        add_candidate (Dict.get j fleet) (override_candidates j overrides) in
      let rest : All P behind = rest-All P (Dict.get j (catalog_floors catalog)) behind h in
      either-All P (found_in j (Dict.get robot overrides)) _
        (override-All P j robot overrides
          (rest-All P (Dict.get j fleet) (override_candidates j overrides) rest))
        (either-All P (Dict.get j fleet) (Dict.get j (catalog_floors catalog))
          (candidate-All P (Dict.get j fleet) (override_candidates j overrides) rest)
          (candidate-All P (Dict.get j (catalog_floors catalog)) behind h))
        e

  -- The floor that is captured of a class is known, and at most what any robot shows.
  pub record IsCaptured (j : String) : Type 0 where
    pub floor : Float
    pub captured : Dict.get j (capture_floors catalog fleet overrides) ≡ some floor
    pub low : (robot : String) → NoAbove floor (floor_for catalog fleet overrides robot j)

  -- Of a class of the catalog, whatever else is set.
  pub capture-IsCaptured :
      (j : String) (t : Float)
      → Dict.get j (catalog_floors catalog) ≡ some t
      → Values IsCents (catalog_floors catalog)
      → Values IsCents fleet
      → Values (Values IsCents) overrides
      → IsCaptured j
  unfolding floor_for
  capture-IsCaptured j t known hc hf ho =
      let behind : List Float =
        add_candidate (Dict.get j fleet) (override_candidates j overrides) in
      let c : Float = round2 (least_from t behind) in
      let found : captured_of (asked j) ≡ some c = rw known refl in
      let below : All (NoAbove c) (asked j) =
        (captured_of-all (asked j) (candidates-IsCents j hc hf ho) found).1 in
      record {
        floor = c;
        captured = capture_floors-get j ∙ found;
        low = λ robot.
            shown-NoAbove c (found_in j (Dict.get robot overrides)) (Dict.get j fleet)
              (Dict.get j (catalog_floors catalog)) known
              (λ f e. found-All (NoAbove c) j robot below e);
      }
