-- ===== src/Forwarder/Above.antt =====
-- pkg/sfu/forwarder.go, AllocateNextHigher: its search finds layers above the target.
use voicekit.Prelude.{ℕ, suc, ◌<◌, ◌≤◌, Bool, true, false, some, ◌≡◌, refl, ◌⊎◌, inl, inr, arith}
use mathlib.Core.Path.{subst, sym}
use voicekit.Prelude.Int.{ℤ, pos, ◌≤ℤ◌}
use voicekit.VideoLayer.{VideoLayer, invalid_layer, is_valid, greater_than}
use voicekit.Bitrates.{Bitrates, Search, panics, absent, found, or_later, nonzero, lowest}
use voicekit.Bitrates.Highest.{layer_at, rate-at}
use voicekit.Bitrates.Lowest.{UpAnswer, pos_suc, lowest-UpAnswer}
use voicekit.Forwarder.{State}
use voicekit.Forwarder.Boost.{may_overshoot, search_between, search_above}
use voicekit.Forwarder.Provisional.{rate_or_none}

-- No layer, or one of the array
abbrev pub IsLayer : VideoLayer → Type 0
IsLayer v = (v ≡ invalid_layer) ⊎ ((s : ℕ) × (t : ℕ) × (v ≡ layer_at s t) × ((s < 3) × (t < 4)))

-- A search finds no layer, or one of the array above the target, with a wanted bitrate.
unfoldable pub IsAbove : (ℤ → Bool) → Bitrates → VideoLayer → Search → Type 0
IsAbove wanted brs target panics = ⊥
IsAbove wanted brs target absent = Unit
IsAbove wanted brs target (found v r) =
    (i : ℕ) × (j : ℕ) × (v ≡ layer_at i j)
    × (r ≡ brs i j)
    × (wanted r ≡ true)
    × (greater_than v target ≡ true)

IsAbove-or_later :
    (wanted : ℤ → Bool) (brs : Bitrates) (target : VideoLayer) (x y : Search)
    → IsAbove wanted brs target x
    → IsAbove wanted brs target y
    → IsAbove wanted brs target (or_later x y)
unfolding IsAbove
IsAbove-or_later wanted brs target panics y a b = a
IsAbove-or_later wanted brs target absent y a b = b
IsAbove-or_later wanted brs target (found v r) y a b = a

UpAnswer-IsAbove :
    (wanted : ℤ → Bool) (brs : Bitrates) (s t : ℕ) (target : VideoLayer) (x : Search)
    → ((i j : ℕ) → s ≤ i → t ≤ j → greater_than (layer_at i j) target ≡ true)
    → UpAnswer wanted brs s t x
    → IsAbove wanted brs target x
unfolding UpAnswer IsAbove
UpAnswer-IsAbove wanted brs s t target panics h a = a
UpAnswer-IsAbove wanted brs s t target absent h a = tt
UpAnswer-IsAbove wanted brs s t target (found v r) h (i, j, e, er, w, (a, b, c, d)) =
    (i, j, e, er, w, subst (λ u. greater_than u target ≡ true) (sym e) (h i j a c))

search_invalid :
    (wanted : ℤ → Bool) (brs : Bitrates) (maximum : VideoLayer)
    → maximum.spatial ≤ℤ pos 2
    → maximum.temporal ≤ℤ pos 3
    → IsAbove wanted brs invalid_layer (search_between wanted invalid_layer maximum brs false)
unfolding search_between IsAbove
search_invalid wanted brs maximum h k =
    let x = lowest wanted brs (pos 0) maximum.spatial (pos 0) maximum.temporal in
    IsAbove-or_later wanted brs invalid_layer x absent
      (UpAnswer-IsAbove wanted brs 0 0 invalid_layer x (λ i j a b. ground arith)
        (lowest-UpAnswer wanted brs 0 0 maximum.spatial maximum.temporal (omega arith) (omega arith)
          h k))
      tt

search_from :
    (wanted : ℤ → Bool) (brs : Bitrates) (s t : ℕ) (maximum : VideoLayer)
    → s < 3
    → t < 4
    → maximum.spatial ≤ℤ pos 2
    → maximum.temporal ≤ℤ pos 3
    → IsAbove wanted brs (layer_at s t) (search_between wanted (layer_at s t) maximum brs false)
unfolding search_between IsAbove
search_from wanted brs s t maximum h k l m =
    let target = layer_at s t in
    let x = lowest wanted brs (pos s) (pos s) (pos (suc t)) maximum.temporal in
    let y = lowest wanted brs (pos (suc s)) maximum.spatial (pos 0) maximum.temporal in
    let valid : is_valid target ≡ true = ground arith in
    rw (valid, pos_suc s, pos_suc t)
      (IsAbove-or_later wanted brs target x (or_later y absent)
        (UpAnswer-IsAbove wanted brs s (suc t) target x (λ i j a b. ground arith)
          (lowest-UpAnswer wanted brs s (suc t) (pos s) maximum.temporal (omega arith) (omega arith)
            (omega arith) m))
        (IsAbove-or_later wanted brs target y absent
          (UpAnswer-IsAbove wanted brs (suc s) 0 target y (λ i j a b. ground arith)
            (lowest-UpAnswer wanted brs (suc s) 0 maximum.spatial maximum.temporal (omega arith)
              (omega arith) l m))
          tt))

pub search_above-IsAbove :
    (f : State) (brs : Bitrates)
    → f.vls.max_layer.spatial ≤ℤ pos 2
    → f.vls.max_layer.temporal ≤ℤ pos 3
    → IsLayer f.vls.target_layer
    → IsAbove nonzero brs f.vls.target_layer (search_above nonzero f brs false)
unfolding may_overshoot
search_above-IsAbove f brs h k (inl e) =
    subst (λ v. IsAbove nonzero brs v (search_between nonzero v f.vls.max_layer brs false)) (sym e)
      (search_invalid nonzero brs f.vls.max_layer h k)
search_above-IsAbove f brs h k (inr (s, t, e, (l, m))) =
    subst (λ v. IsAbove nonzero brs v (search_between nonzero v f.vls.max_layer brs false)) (sym e)
      (search_from nonzero brs s t f.vls.max_layer l m h k)

pub rate_or_none-IsLayer :
    (brs : Bitrates) (v : VideoLayer) → IsLayer v → (r : ℤ) × (rate_or_none brs v ≡ some r)
rate_or_none-IsLayer brs v (inl e) =
    subst (λ u. (r : ℤ) × (rate_or_none brs u ≡ some r)) (sym e) (pos 0, refl)
rate_or_none-IsLayer brs v (inr (s, t, e, (h, k))) =
    let valid : is_valid (layer_at s t) ≡ true = ground arith in
    subst (λ u. (r : ℤ) × (rate_or_none brs u ≡ some r)) (sym e)
      (rw valid (brs s t, rate-at brs s t h k))
