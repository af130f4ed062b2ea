-- ===== src/StreamAllocator/NoPause.antt =====
-- pkg/sfu/streamallocator/streamallocator.go, allocateAllTracks, where pausing is not allowed.
use voicekit.Prelude.{true, false, some, List, [], ◌∷◌, ◌≡◌, refl, ◌∙◌, ap, ◌⊎◌, inl, inr}
use voicekit.Prelude.Int.{ℤ, pos, ◌-ℤ◌, max_ℤ}
use voicekit.VideoLayer.{VideoLayer, is_valid}
use voicekit.Bitrates.{nonzero}
use voicekit.Forwarder.{State}
use voicekit.Forwarder.Fits.{IsInArray}
use voicekit.Forwarder.Streams.{
  Follows, Follows-refl, Follows-trans, Offers, IsServed, provisional_allocate-IsServed,
}
use voicekit.StreamAllocator.{Track, allocate_layer, allocate_layers, all_layers, prepare_all}
use voicekit.StreamAllocator.Capacity.{
  ArePlaced, AreInArray, all_layers-AreInArray, prepare_all-ArePlaced,
}

-- The forwarder could send one of the layers.
pub OffersOne : State → List VideoLayer → Type 0
OffersOne f [] = ⊥
OffersOne f (v ∷ vs) = Offers f v ⊎ OffersOne f vs

Offers-Follows : (f g : State) (v : VideoLayer) → Follows f g → Offers f v → Offers g v
Offers-Follows f g v h o = (h.same_bars v ∙ o.0, ap nonzero (h.same_rates v) ∙ o.1)

OffersOne-Follows :
    (f g : State) (vs : List VideoLayer) → Follows f g → OffersOne f vs → OffersOne g vs
unfolding OffersOne
OffersOne-Follows f g [] h o = o
OffersOne-Follows f g (v ∷ vs) h (inl o) = inl (Offers-Follows f g v h o)
OffersOne-Follows f g (v ∷ vs) h (inr o) = inr (OffersOne-Follows f g vs h o)

-- The second forwarder is what trials of the layers left of the first.
IsStreaming : List VideoLayer → State → State → Type 0
IsStreaming vs f g = Follows f g × (OffersOne f vs → is_valid g.provisional.allocated_layer ≡ true)

-- As many forwarders after as before; each that could send one of the layers has a layer.
pub AreStreaming : List VideoLayer → List State → List State → Type 0
AreStreaming vs [] [] = Unit
AreStreaming vs (f ∷ fs) (g ∷ gs) = IsStreaming vs f g × AreStreaming vs fs gs
AreStreaming vs _ _ = ⊥

streaming_refl : (fs : List State) → AreStreaming [] fs fs
unfolding AreStreaming IsStreaming OffersOne
streaming_refl [] = tt
streaming_refl (f ∷ fs) = ((Follows-refl f, λ o. absurd o), streaming_refl fs)

IsStreaming-step :
    (v : VideoLayer) (vs : List VideoLayer) (f h g : State)
    → IsServed f v h
    → IsStreaming vs h g
    → IsStreaming (v ∷ vs) f g
unfolding IsStreaming OffersOne
IsStreaming-step v vs f h g served (follows, streams) = (
  Follows-trans f h g served.follows follows,
  λ o. elim o [
    | inl now ↦ follows.stays (served.streams now)
    | inr later ↦ streams (OffersOne-Follows f h vs served.follows later)
  ],
)

-- What one layer leaves of each forwarder
AreServed : VideoLayer → List State → List State → Type 0
AreServed v [] [] = Unit
AreServed v (f ∷ fs) (g ∷ gs) = IsServed f v g × AreServed v fs gs
AreServed v _ _ = ⊥

streaming_steps :
    (v : VideoLayer) (vs : List VideoLayer) (fs hs gs : List State)
    → AreServed v fs hs
    → AreStreaming vs hs gs
    → AreStreaming (v ∷ vs) fs gs
unfolding AreServed AreStreaming
streaming_steps v vs [] [] [] a b = tt
streaming_steps v vs (f ∷ fs) (h ∷ hs) (g ∷ gs) a b =
    (IsStreaming-step v vs f h g a.0 b.0, streaming_steps v vs fs hs gs a.1 b.1)
streaming_steps v vs [] [] (g ∷ gs) a b = b
streaming_steps v vs [] (h ∷ hs) gs a b = absurd a
streaming_steps v vs (f ∷ fs) [] gs a b = absurd a
streaming_steps v vs (f ∷ fs) (h ∷ hs) [] a b = b

served_placed : (v : VideoLayer) (fs gs : List State) → AreServed v fs gs → ArePlaced gs
unfolding AreServed ArePlaced
served_placed v [] [] a = tt
served_placed v (f ∷ fs) (g ∷ gs) a = (a.0.placed, served_placed v fs gs a.1)
served_placed v [] (g ∷ gs) a = absurd a
served_placed v (f ∷ fs) [] a = absurd a

allocate_layer-AreServed :
    (v : VideoLayer) (capacity : ℤ) (fs : List State)
    → IsInArray v
    → ArePlaced fs
    → (r : List State × ℤ) × (allocate_layer false v capacity fs ≡ some r) × AreServed v fs r.0
unfolding allocate_layer ArePlaced AreServed
allocate_layer-AreServed v capacity [] inside placed = (([], capacity), refl, tt)
allocate_layer-AreServed v capacity (f ∷ fs) inside placed =
    let trial = provisional_allocate-IsServed f capacity v inside placed.0 in
    let rest =
      allocate_layer-AreServed v (max_ℤ (pos 0) (capacity -ℤ trial.0.2)) fs inside placed.1 in
    rw (trial.1, rest.1) ((trial.0.0 ∷ rest.0.0, rest.0.1), refl, (trial.2, rest.2))

layers-AreStreaming :
    (vs : List VideoLayer) (capacity : ℤ) (fs : List State)
    → AreInArray vs
    → ArePlaced fs
    → (r : List State × ℤ) × (allocate_layers false vs capacity fs ≡ some r)
      × AreStreaming vs fs r.0
unfolding allocate_layers AreInArray
layers-AreStreaming [] capacity fs inside placed = ((fs, capacity), refl, streaming_refl fs)
layers-AreStreaming (v ∷ vs) capacity fs inside placed =
    let tried = allocate_layer-AreServed v capacity fs inside.0 placed in
    let rest =
      layers-AreStreaming vs tried.0.1 tried.0.0 inside.1 (served_placed v fs tried.0.0 tried.2) in
    rw (tried.1) (rest.0, rest.1, streaming_steps v vs fs tried.0.0 rest.0.0 tried.2 rest.2)

-- If pausing is not allowed, then whatever the capacity is, the trial of all layers ends without a
-- panic, and each track of which a layer has bits and is not barred has a layer at the end.
pub allocate_layers-AreStreaming :
    (ts : List Track) (capacity : ℤ)
    → (r : List State × ℤ) × (allocate_layers false all_layers capacity (prepare_all ts) ≡ some r)
      × AreStreaming all_layers (prepare_all ts) r.0
allocate_layers-AreStreaming ts capacity =
    layers-AreStreaming all_layers capacity (prepare_all ts) all_layers-AreInArray
      (prepare_all-ArePlaced ts)
