-- ===== src/StreamAllocator/Capacity.antt =====
-- pkg/sfu/streamallocator/streamallocator.go, allocateAllTracks: the trial of the layers stays within
-- the capacity.
use voicekit.Prelude.{true, false, some, List, [], ◌∷◌, ◌≡◌, refl, inl, arith}
use voicekit.Prelude.Int.{ℤ, pos, ◌+ℤ◌, ◌-ℤ◌, ◌≤ℤ◌, add_lem, sub_lem, max_ℤ}
use voicekit.VideoLayer.{VideoLayer}
use voicekit.Forwarder.{State}
use voicekit.Forwarder.Provisional.{provisional_allocate_prepare}
use voicekit.Forwarder.Fits.{
  IsInArray, allocated_rate, IsPlaced, IsSound, provisional_allocate-IsAffordable,
}
use voicekit.StreamAllocator.{Track, allocate_layer, allocate_layers, all_layers, prepare_all}

-- The bits per second of the layers that are allocated
unfoldable pub total_rate : List State → ℤ
total_rate [] = pos 0
total_rate (f ∷ fs) = allocated_rate f +ℤ total_rate fs

unfoldable pub ArePlaced : List State → Type 0
ArePlaced [] = Unit
ArePlaced (f ∷ fs) = IsPlaced f × ArePlaced fs

unfoldable pub AreSound : List State → Type 0
AreSound [] = Unit
AreSound (f ∷ fs) = IsSound f × AreSound fs

-- What is allocated and what is left is no more than before, and what is left is not negative.
pub record IsShared (before : List State × ℤ) (after : List State × ℤ) : Type 0 where
  pub placed : ArePlaced after.0
  pub sound : AreSound before.0 → AreSound after.0
  pub bounded : total_rate after.0 +ℤ after.1 ≤ℤ total_rate before.0 +ℤ before.1
  pub is_left : pos 0 ≤ℤ after.1

max_ℤ_lem : (a : ℤ) → pos 0 ≤ℤ a → max_ℤ (pos 0) a ≤ℤ a
max_ℤ_lem a h = ground arith

max_ℤ_zero : (a : ℤ) → pos 0 ≤ℤ max_ℤ (pos 0) a
max_ℤ_zero a = ground arith

shared_step :
    (a a' t t' capacity used rest left : ℤ)
    → a' ≤ℤ a +ℤ used
    → rest ≤ℤ capacity -ℤ used
    → t' +ℤ left ≤ℤ t +ℤ rest
    → (a' +ℤ t') +ℤ left ≤ℤ (a +ℤ t) +ℤ capacity
shared_step a a' t t' capacity used rest left h k l =
    let e1 = add_lem a used in
    let e2 = sub_lem capacity used in
    let e3 = add_lem t' left in
    let e4 = add_lem t rest in
    let e5 = add_lem a' t' in
    let e6 = add_lem a t in
    let e7 = add_lem (a' +ℤ t') left in let e8 = add_lem (a +ℤ t) capacity in omega arith

rest_left : (capacity used : ℤ) → used ≤ℤ capacity → pos 0 ≤ℤ capacity -ℤ used
rest_left capacity used h = let e = sub_lem capacity used in omega arith

allocate_layer-IsShared :
    (layer : VideoLayer) (capacity : ℤ) (fs : List State)
    → IsInArray layer
    → pos 0 ≤ℤ capacity
    → ArePlaced fs
    → (r : List State × ℤ) × (allocate_layer true layer capacity fs ≡ some r)
      × IsShared (fs, capacity) r
unfolding allocate_layer ArePlaced AreSound total_rate
allocate_layer-IsShared layer capacity [] inside h placed = (
  ([], capacity),
  refl,
  record { placed = tt; sound = λ k. k; bounded = omega arith; is_left = h },
)
allocate_layer-IsShared layer capacity (f ∷ fs) inside h placed =
    let trial = provisional_allocate-IsAffordable f capacity layer false inside placed.0 in
    let used = trial.0.2 in
    let left = rest_left capacity used (trial.2.affords h) in
    let rest =
      allocate_layer-IsShared layer (max_ℤ (pos 0) (capacity -ℤ used)) fs inside
        (max_ℤ_zero (capacity -ℤ used)) placed.1 in
    rw (trial.1, rest.1)
      (
        (trial.0.0 ∷ rest.0.0, rest.0.1),
        refl,
        record {
          placed = (trial.2.placed, rest.2.placed);
          sound = λ k. (trial.2.sound k.0, rest.2.sound k.1);
          bounded =
              shared_step (allocated_rate f) (allocated_rate trial.0.0) (total_rate fs)
                (total_rate rest.0.0) capacity used (max_ℤ (pos 0) (capacity -ℤ used)) rest.0.1
                trial.2.adds (max_ℤ_lem (capacity -ℤ used) left) rest.2.bounded;
          is_left = rest.2.is_left;
        },
      )

unfoldable pub AreInArray : List VideoLayer → Type 0
AreInArray [] = Unit
AreInArray (v ∷ vs) = IsInArray v × AreInArray vs

pub allocate_layers-IsShared :
    (layers : List VideoLayer) (capacity : ℤ) (fs : List State)
    → AreInArray layers
    → pos 0 ≤ℤ capacity
    → ArePlaced fs
    → (r : List State × ℤ) × (allocate_layers true layers capacity fs ≡ some r)
      × IsShared (fs, capacity) r
unfolding allocate_layers AreInArray
allocate_layers-IsShared [] capacity fs inside h placed = (
  (fs, capacity),
  refl,
  record { placed = placed; sound = λ k. k; bounded = omega arith; is_left = h },
)
allocate_layers-IsShared (layer ∷ layers) capacity fs inside h placed =
    let tried = allocate_layer-IsShared layer capacity fs inside.0 h placed in
    let rest =
      allocate_layers-IsShared layers tried.0.1 tried.0.0 inside.1 tried.2.is_left tried.2.placed in
    rw (tried.1) (
      rest.0,
      rest.1,
      record {
        placed = rest.2.placed;
        sound = λ k. rest.2.sound (tried.2.sound k);
        bounded = let h1 = tried.2.bounded in let h2 = rest.2.bounded in omega arith;
        is_left = rest.2.is_left;
      },
    )

pub all_layers-AreInArray : AreInArray all_layers
unfolding AreInArray
all_layers-AreInArray = (
  refl,
  (refl, (refl, (refl, (refl, (refl, (refl, (refl, (refl, (refl, (refl, (refl, tt))))))))))),
)

pub prepare_all-ArePlaced : (ts : List Track) → ArePlaced (prepare_all ts)
unfolding prepare_all ArePlaced IsPlaced provisional_allocate_prepare
prepare_all-ArePlaced [] = tt
prepare_all-ArePlaced (t ∷ ts) = (inl refl, prepare_all-ArePlaced ts)

pub prepare_all-total : (ts : List Track) → total_rate (prepare_all ts) ≤ℤ pos 0
unfolding prepare_all total_rate provisional_allocate_prepare allocated_rate
prepare_all-total [] = omega arith
prepare_all-total (t ∷ ts) =
    let h = prepare_all-total ts in
    let e = add_lem (pos 0) (total_rate (prepare_all ts)) in omega arith
