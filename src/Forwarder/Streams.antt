-- ===== src/Forwarder/Streams.antt =====
-- pkg/sfu/forwarder.go, ProvisionalAllocate: trials without a pause, which do not leave a track that
-- has bits without a layer.
use voicekit.Prelude.{Bool, true, false, some, ◌≡◌, refl, ◌∙◌, Bool-cases, inl, inr, arith}
use voicekit.Prelude.Int.{ℤ, pos, ◌-ℤ◌}
use voicekit.VideoLayer.{VideoLayer, is_valid, greater_than}
use voicekit.Bitrates.{nonzero}
use voicekit.Forwarder.{State}
use voicekit.Forwarder.Provisional.{
  allocate, is_barred, takes, allocate_if_fits, provisional_allocate,
}
use voicekit.Forwarder.Fits.{
  IsInArray, IsPlaced, element, allocated_rate, rate-InArray, rate_or_none-IsPlaced, InArray-valid,
  allocate-IsPlaced,
}

-- A layer stays allocated, and what bars or feeds a layer stays.
pub record Follows (f g : State) : Type 0 where
  pub same_bars : (v : VideoLayer) → is_barred g v false ≡ is_barred f v false
  pub same_rates :
      (v : VideoLayer) → element g.provisional.bitrates v ≡ element f.provisional.bitrates v
  pub stays :
      is_valid f.provisional.allocated_layer ≡ true → is_valid g.provisional.allocated_layer ≡ true

-- The forwarder could send the layer: nothing bars it, and it has bits.
abbrev pub Offers : State → VideoLayer → Type 0
Offers f v = (is_barred f v false ≡ false) × (nonzero (element f.provisional.bitrates v) ≡ true)

-- What a trial of a layer leaves
pub record IsServed (f : State) (v : VideoLayer) (g : State) : Type 0 where
  pub placed : IsPlaced g
  pub follows : Follows f g
  pub streams : Offers f v → is_valid g.provisional.allocated_layer ≡ true

pub Follows-refl : (f : State) → Follows f f
Follows-refl f = record { same_bars = λ v. refl; same_rates = λ v. refl; stays = λ h. h }

pub Follows-trans : (f g h : State) → Follows f g → Follows g h → Follows f h
Follows-trans f g h a b = record {
  same_bars = λ v. b.same_bars v ∙ a.same_bars v;
  same_rates = λ v. b.same_rates v ∙ a.same_rates v;
  stays = λ e. b.stays (a.stays e);
}

allocate-Follows : (f : State) (v : VideoLayer) → is_valid v ≡ true → Follows f (allocate f v)
unfolding allocate is_barred
allocate-Follows f v h = record { same_bars = λ u. refl; same_rates = λ u. refl; stays = λ e. h }

allocate-IsServed :
    (f : State) (v : VideoLayer)
    → IsInArray v
    → greater_than v f.provisional.max_layer ≡ false
    → IsServed f v (allocate f v)
unfolding allocate
allocate-IsServed f v inside within = record {
  placed = allocate-IsPlaced f v inside within;
  follows = allocate-Follows f v (InArray-valid v inside);
  streams = λ h. InArray-valid v inside;
}

barred_within :
    (f : State) (v : VideoLayer)
    → is_barred f v false ≡ false
    → greater_than v f.provisional.max_layer ≡ false
unfolding is_barred
barred_within f v h = ground arith

-- Without `allowPause`, a layer that has bits is refused only if one is allocated.
refused_valid :
    (f : State) (v : VideoLayer) (capacity required already : ℤ)
    → takes f v capacity required already false ≡ false
    → is_valid f.provisional.allocated_layer ≡ true
unfolding takes
refused_valid f v capacity required already h =
    elim (Bool-cases (is_valid f.provisional.allocated_layer)) [
      | inl e ↦ e
      | inr e ↦ absurd (ground arith)
    ]

true_not_false : (b : Bool) → b ≡ true → b ≡ false → ⊥
true_not_false b h k = ground arith

kept-IsServed :
    (f : State) (v : VideoLayer)
    → IsPlaced f
    → (Offers f v → is_valid f.provisional.allocated_layer ≡ true)
    → IsServed f v f
kept-IsServed f v placed why = record { placed = placed; follows = Follows-refl f; streams = why }

allocate_if_fits-IsServed :
    (f : State) (capacity : ℤ) (v : VideoLayer)
    → IsInArray v
    → IsPlaced f
    → greater_than v f.provisional.max_layer ≡ false
    → (r : State × Bool × ℤ) × (allocate_if_fits f capacity v false
          (element f.provisional.bitrates v)
        ≡ some r)
      × IsServed f v r.0
unfolding allocate_if_fits
allocate_if_fits-IsServed f capacity v inside placed within =
    let required = element f.provisional.bitrates v in
    elim (Bool-cases (nonzero required)) [
      | inr e ↦ rw e (
        (f, false, pos 0),
        refl,
        kept-IsServed f v placed (λ h. absurd (true_not_false (nonzero required) h.1 e)),
      )
      | inl e ↦
          rw (e, rate_or_none-IsPlaced f placed)
            (elim (Bool-cases (takes f v capacity required (allocated_rate f) false)) [
              | inr h ↦ rw h (
                (f, false, pos 0),
                refl,
                kept-IsServed f v placed
                    (λ k. refused_valid f v capacity required (allocated_rate f) h),
              )
              | inl h ↦ rw h (
                (allocate f v, true, required -ℤ allocated_rate f),
                refl,
                allocate-IsServed f v inside within,
              )
            ])
    ]

pub provisional_allocate-IsServed :
    (f : State) (capacity : ℤ) (v : VideoLayer)
    → IsInArray v
    → IsPlaced f
    → (r : State × Bool × ℤ) × (provisional_allocate f capacity v false false ≡ some r)
      × IsServed f v r.0
unfolding provisional_allocate
provisional_allocate-IsServed f capacity v inside placed = elim (Bool-cases (is_barred f v false)) [
  | inl e ↦ rw e (
    (f, false, pos 0),
    refl,
    kept-IsServed f v placed (λ h. absurd (true_not_false (is_barred f v false) e h.0)),
  )
  | inr e ↦
      rw (e, rate-InArray f.provisional.bitrates v inside)
        (allocate_if_fits-IsServed f capacity v inside placed (barred_within f v e))
]
