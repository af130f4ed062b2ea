-- ===== src/Forwarder/Fits.antt =====
-- pkg/sfu/forwarder.go, ProvisionalAllocate: what a trial of a layer leaves.
use voicekit.Prelude.{
  ℕ, Bool, true, false, some, ◌≡◌, refl, ◌⊎◌, inl, inr, Bool-cases, arith, if◌then◌else◌,
}
use voicekit.Prelude.Int.{ℤ, pos, pos_part, ◌+ℤ◌, ◌-ℤ◌, ◌≤ℤ◌, add_lem, sub_lem, leb_ℤ, leb_ℤ→le}
use voicekit.VideoLayer.{VideoLayer, is_valid, greater_than}
use voicekit.Bitrates.{Bitrates, in_array, rate, nonzero}
use voicekit.Forwarder.{State}
use voicekit.Forwarder.Provisional.{
  allocate, rate_at, rate_or_none, is_barred, takes, allocate_if_fits, provisional_allocate,
}

abbrev pub IsInArray : VideoLayer → Type 0
IsInArray v = in_array v.spatial v.temporal ≡ true

-- The bitrate of a layer that the array has
abbrev pub element : Bitrates → VideoLayer → ℤ
element brs v = brs (pos_part v.spatial) (pos_part v.temporal)

-- The bits per second of the allocated layer, 0 if there is none
unfoldable pub allocated_rate : State → ℤ
allocated_rate f =
    if is_valid f.provisional.allocated_layer
    then element f.provisional.bitrates f.provisional.allocated_layer
    else pos 0

-- No layer is allocated, or one of the array that is not above the maximum.
unfoldable pub IsPlaced : State → Type 0
IsPlaced f =
    (is_valid f.provisional.allocated_layer ≡ false)
    ⊎ (IsInArray f.provisional.allocated_layer
        × (greater_than f.provisional.allocated_layer f.provisional.max_layer ≡ false))

-- The maximum is at most the greatest layer, a target is one of the array, and a bitrate is not
-- negative.
unfoldable pub IsSound : State → Type 0
IsSound f =
    (f.provisional.max_layer.spatial ≤ℤ pos 2)
    × (f.provisional.max_layer.temporal ≤ℤ pos 3)
    × (is_valid f.vls.target_layer ≡ true → IsInArray f.vls.target_layer)
    × ((s t : ℕ) → pos 0 ≤ℤ f.provisional.bitrates s t)

pub rate-InArray :
    (brs : Bitrates) (v : VideoLayer) → IsInArray v → rate_at brs v ≡ some (element brs v)
unfolding rate
rate-InArray brs v h = rw h refl

pub rate_or_none-IsPlaced :
    (f : State)
    → IsPlaced f
    → rate_or_none f.provisional.bitrates f.provisional.allocated_layer ≡ some (allocated_rate f)
unfolding IsPlaced allocated_rate
rate_or_none-IsPlaced f (inl h) = rw h refl
rate_or_none-IsPlaced f (inr (inside, within)) =
    elim (Bool-cases (is_valid f.provisional.allocated_layer)) [
      | inl h ↦ rw h (rate-InArray f.provisional.bitrates f.provisional.allocated_layer inside)
      | inr h ↦ rw h refl
    ]

pub InArray-valid : (v : VideoLayer) → IsInArray v → is_valid v ≡ true
InArray-valid v h = ground arith

-- What a trial leaves of the capacity, and of the bits that are allocated
pub record IsAffordable (f : State) (capacity : ℤ) (r : State × Bool × ℤ) : Type 0 where
  pub placed : IsPlaced r.0
  pub sound : IsSound f → IsSound r.0
  pub adds : allocated_rate r.0 ≤ℤ allocated_rate f +ℤ r.2
  pub affords : pos 0 ≤ℤ capacity → r.2 ≤ℤ capacity

unchanged-IsAffordable :
    (f : State) (capacity : ℤ) → IsPlaced f → IsAffordable f capacity (f, false, pos 0)
unchanged-IsAffordable f capacity placed = record {
  placed = placed;
  sound = λ h. h;
  adds = let h = add_lem (allocated_rate f) (pos 0) in omega arith;
  affords = λ h. h;
}

allocate-rate :
    (f : State) (layer : VideoLayer)
    → IsInArray layer
    → allocated_rate (allocate f layer) ≡ element f.provisional.bitrates layer
unfolding allocated_rate allocate
allocate-rate f layer inside = rw (InArray-valid layer inside) refl

pub allocate-IsPlaced :
    (f : State) (layer : VideoLayer)
    → IsInArray layer
    → greater_than layer f.provisional.max_layer ≡ false
    → IsPlaced (allocate f layer)
unfolding IsPlaced allocate
allocate-IsPlaced f layer inside within = inr (inside, within)

allocate-IsSound : (f : State) (layer : VideoLayer) → IsSound f → IsSound (allocate f layer)
unfolding IsSound allocate
allocate-IsSound f layer h = h

taken-IsAffordable :
    (f : State) (capacity : ℤ) (layer : VideoLayer)
    → IsInArray layer
    → greater_than layer f.provisional.max_layer ≡ false
    → element f.provisional.bitrates layer ≤ℤ capacity +ℤ allocated_rate f
    → IsAffordable f capacity
        (allocate f layer, true, element f.provisional.bitrates layer -ℤ allocated_rate f)
taken-IsAffordable f capacity layer inside within fits =
    let required = element f.provisional.bitrates layer in
    let already = allocated_rate f in
    let difference = sub_lem required already in
    record {
      placed = allocate-IsPlaced f layer inside within;
      sound = allocate-IsSound f layer;
      adds =
          let sum = add_lem already (required -ℤ already) in
          rw (allocate-rate f layer inside) (omega arith);
      affords = λ h. let sum = add_lem capacity already in omega arith;
    }

-- With `allowPause`, a layer is taken only if it is not above the maximum and fits.
takes_lem :
    (f : State) (layer : VideoLayer) (capacity required already : ℤ)
    → takes f layer capacity required already true ≡ true
    → (greater_than layer f.provisional.max_layer ≡ false) × (required ≤ℤ capacity +ℤ already)
unfolding takes
takes_lem f layer capacity required already h =
    elim (Bool-cases (greater_than layer f.provisional.max_layer)) [
      | inl e ↦ absurd (ground arith)
      | inr e ↦ elim (Bool-cases (leb_ℤ required (capacity +ℤ already))) [
        | inl k ↦ (e, leb_ℤ→le required (capacity +ℤ already) k)
        | inr k ↦ absurd (ground arith)
      ]
    ]

abbrev Trial : Type 0
Trial = State × Bool × ℤ

allocate_if_fits-IsAffordable :
    (f : State) (capacity : ℤ) (layer : VideoLayer)
    → IsInArray layer
    → IsPlaced f
    → (r : Trial) × (allocate_if_fits f capacity layer true (element f.provisional.bitrates layer)
        ≡ some r)
      × IsAffordable f capacity r
unfolding allocate_if_fits
allocate_if_fits-IsAffordable f capacity layer inside placed =
    let required = element f.provisional.bitrates layer in
    let unchanged = unchanged-IsAffordable f capacity placed in
    elim (Bool-cases (nonzero required)) [
      | inr e ↦ rw e ((f, false, pos 0), refl, unchanged)
      | inl e ↦
          rw (e, rate_or_none-IsPlaced f placed)
            (elim (Bool-cases (takes f layer capacity required (allocated_rate f) true)) [
              | inr h ↦ rw h ((f, false, pos 0), refl, unchanged)
              | inl h ↦
                  let why = takes_lem f layer capacity required (allocated_rate f) h in
                  rw h (
                    (allocate f layer, true, required -ℤ allocated_rate f),
                    refl,
                    taken-IsAffordable f capacity layer inside why.0 why.1,
                  )
            ])
    ]

pub provisional_allocate-IsAffordable :
    (f : State) (capacity : ℤ) (layer : VideoLayer) (allow_overshoot : Bool)
    → IsInArray layer
    → IsPlaced f
    → (r : Trial) × (provisional_allocate f capacity layer true allow_overshoot ≡ some r)
      × IsAffordable f capacity r
unfolding provisional_allocate
provisional_allocate-IsAffordable f capacity layer allow_overshoot inside placed =
    elim (Bool-cases (is_barred f layer allow_overshoot)) [
      | inl e ↦ rw e ((f, false, pos 0), refl, unchanged-IsAffordable f capacity placed)
      | inr e ↦
          rw (e, rate-InArray f.provisional.bitrates layer inside)
            (allocate_if_fits-IsAffordable f capacity layer inside placed)
    ]
