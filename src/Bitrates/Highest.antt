-- ===== src/Bitrates/Highest.antt =====
-- pkg/sfu/forwarder.go, getOptimalBandwidthNeeded: the search from the greatest layer downwards.
use voicekit.Prelude.{
  ℕ, zero, suc, ◌<◌, ◌≤◌, Bool, true, false, ◌||◌, some, ◌≡◌, refl, ap, ◌⊎◌, inl, inr, Bool-cases,
  ltb, ltb→lt, arith,
}
use mathlib.Core.Path.{subst, sym}
use voicekit.Prelude.Int.{ℤ, pos, ◌-ℤ◌, ◌+ℤ◌, ◌≤ℤ◌, eqb_ℤ, add_lem, sub_lem, one_sign}
use voicekit.VideoLayer.{VideoLayer, invalid}
use voicekit.Bitrates.{
  Bitrates, in_array, rate, nonzero, Search, panics, absent, found, or_later, row_down, down, turns,
  highest, found_rate, get_optimal_bandwidth_needed,
}

-- The layer of two natural numbers
abbrev pub layer_at : ℕ → ℕ → VideoLayer
layer_at s t = record { spatial = pos s; temporal = pos t }

pub suc_cases : (a b : ℕ) → a < suc b → (a ≡ b) ⊎ (a < b)
suc_cases a b h = elim (Bool-cases (ltb a b)) [
  | inl k ↦ inr (ltb→lt a b k)
  | inr k ↦ inl (ground arith)
]

pub rate-at : (brs : Bitrates) (s t : ℕ) → s < 3 → t < 4 → rate brs (pos s) (pos t) ≡ some (brs s t)
unfolding rate
rate-at brs s t h k = let inside : in_array (pos s) (pos t) ≡ true = ground arith in rw inside refl

-- Element s t is wanted, and those after it of the first n in its row are not.
unfoldable pub IsLastOf : (ℤ → Bool) → Bitrates → ℕ → ℕ → ℕ → Type 0
IsLastOf wanted brs s n t =
    (t < n) × (wanted (brs s t) ≡ true) × ((u : ℕ) → t < u → u < n → wanted (brs s u) ≡ false)

-- What a search of the first n of row s answers: the last that is wanted
unfoldable pub RowAnswer : (ℤ → Bool) → Bitrates → ℕ → ℕ → Search → Type 0
RowAnswer wanted brs s n panics = ⊥
RowAnswer wanted brs s n absent = (t : ℕ) → t < n → wanted (brs s t) ≡ false
RowAnswer wanted brs s n (found v r) =
    (t : ℕ) × (v ≡ layer_at s t) × (r ≡ brs s t) × IsLastOf wanted brs s n t

row_lift :
    (wanted : ℤ → Bool) (brs : Bitrates) (s n : ℕ) (x : Search)
    → wanted (brs s n) ≡ false
    → RowAnswer wanted brs s n x
    → RowAnswer wanted brs s (suc n) x
unfolding RowAnswer IsLastOf
row_lift wanted brs s n panics h a = a
row_lift wanted brs s n absent h a = λ t k. elim (suc_cases t n k) [
  | inl e ↦ subst (λ i. wanted (brs s i) ≡ false) (sym e) h
  | inr l ↦ a t l
]
row_lift wanted brs s n (found v r) h (t, e, er, (l, w, last)) = (
  t,
  e,
  er,
  (
    (omega arith),
    w,
    λ u k m. elim (suc_cases u n m) [
      | inl eu ↦ subst (λ i. wanted (brs s i) ≡ false) (sym eu) h
      | inr lu ↦ last u k lu
    ],
  ),
)

pub row_down-RowAnswer :
    (wanted : ℤ → Bool) (brs : Bitrates) (s n : ℕ)
    → s < 3
    → n ≤ 4
    → RowAnswer wanted brs s n (row_down wanted brs s n)
unfolding row_down RowAnswer IsLastOf
row_down-RowAnswer wanted brs s zero h k = λ t l. absurd (omega arith)
row_down-RowAnswer wanted brs s (suc n) h k =
    rw (rate-at brs s n h (omega arith)) (elim (Bool-cases (wanted (brs s n))) [
      | inl w ↦ rw w (n, refl, refl, (omega arith, w, λ u l m. absurd (omega arith)))
      | inr w ↦ rw w (
          row_lift wanted brs s n (row_down wanted brs s n) w
            (row_down-RowAnswer wanted brs s n h (omega arith)))
    ])

-- Of the first n rows, none after row s has a wanted one among its first m, and t is the last in s.
unfoldable pub IsHighest : (ℤ → Bool) → Bitrates → ℕ → ℕ → ℕ → ℕ → Type 0
IsHighest wanted brs n m s t =
    (s < n)
    × IsLastOf wanted brs s m t
    × ((i j : ℕ) → s < i → i < n → j < m → wanted (brs i j) ≡ false)

-- What a search of the first m of the first n rows answers
unfoldable pub Answer : (ℤ → Bool) → Bitrates → ℕ → ℕ → Search → Type 0
Answer wanted brs n m panics = ⊥
Answer wanted brs n m absent = (s t : ℕ) → s < n → t < m → wanted (brs s t) ≡ false
Answer wanted brs n m (found v r) =
    (s : ℕ) × (t : ℕ) × (v ≡ layer_at s t) × (r ≡ brs s t) × IsHighest wanted brs n m s t

Answer-join :
    (wanted : ℤ → Bool) (brs : Bitrates) (n m : ℕ) (x y : Search)
    → RowAnswer wanted brs n m x
    → Answer wanted brs n m y
    → Answer wanted brs (suc n) m (or_later x y)
unfolding RowAnswer Answer IsHighest
Answer-join wanted brs n m panics y a b = a
Answer-join wanted brs n m (found v r) y (t, e, er, last) b =
    (n, t, e, er, (omega arith, last, λ i j h k l. absurd (omega arith)))
Answer-join wanted brs n m absent panics a b = b
Answer-join wanted brs n m absent absent a b = λ s t h k. elim (suc_cases s n h) [
  | inl e ↦ subst (λ i. wanted (brs i t) ≡ false) (sym e) (a t k)
  | inr l ↦ b s t l k
]
Answer-join wanted brs n m absent (found v r) a (s, t, e, er, (h, last, none_above)) = (
  s,
  t,
  e,
  er,
  (
    omega arith,
    last,
    λ i j k l o. elim (suc_cases i n l) [
      | inl ei ↦ subst (λ i. wanted (brs i j) ≡ false) (sym ei) (a j o)
      | inr li ↦ none_above i j k li o
    ],
  ),
)

pub down-Answer :
    (wanted : ℤ → Bool) (brs : Bitrates) (n m : ℕ)
    → n ≤ 3
    → m ≤ 4
    → Answer wanted brs n m (down wanted brs n m)
unfolding down Answer
down-Answer wanted brs zero m h k = λ s t i j. absurd (omega arith)
down-Answer wanted brs (suc n) m h k =
    Answer-join wanted brs n m (row_down wanted brs n m) (down wanted brs n m)
      (row_down-RowAnswer wanted brs n m (omega arith) k)
      (down-Answer wanted brs n m (omega arith) k)

turns_zero : (n : ℕ) → turns (pos 0) (pos n) ≡ suc n
turns_zero n = ground arith

pub turns_most : (a : ℤ) (n : ℕ) → a ≤ℤ pos n → turns (pos 0) a ≤ suc n
turns_most a n h =
    let e1 = sub_lem a (pos 0) in
    let e2 = add_lem (a -ℤ pos 0) (pos 1) in let e3 = one_sign (a -ℤ pos 0 +ℤ pos 1) in ground arith

found_rate-Answer :
    (wanted : ℤ → Bool) (brs : Bitrates) (n m : ℕ) (x : Search)
    → Answer wanted brs n m x
    → (r : ℤ) × (found_rate x ≡ some r)
unfolding Answer
found_rate-Answer wanted brs n m panics a = absurd a
found_rate-Answer wanted brs n m absent a = (pos 0, refl)
found_rate-Answer wanted brs n m (found v r) a = (r, refl)

-- The search for the optimal bandwidth ends without a panic.
pub get_optimal_bandwidth_needed-some :
    (muted pub_muted : Bool) (published : ℤ) (brs : Bitrates) (v : VideoLayer)
    → v.spatial ≤ℤ pos 2
    → v.temporal ≤ℤ pos 3
    → (r : ℤ) × (get_optimal_bandwidth_needed muted pub_muted published brs v ≡ some r)
unfolding get_optimal_bandwidth_needed
get_optimal_bandwidth_needed-some muted pub_muted published brs v h k =
    elim (Bool-cases (muted || pub_muted || eqb_ℤ published invalid)) [
      | inl e ↦ rw e (pos 0, refl)
      | inr e ↦ rw e (
          found_rate-Answer nonzero brs (turns (pos 0) v.spatial) (turns (pos 0) v.temporal)
            (highest nonzero brs v)
            (down-Answer nonzero brs (turns (pos 0) v.spatial) (turns (pos 0) v.temporal)
              (turns_most v.spatial 2 h) (turns_most v.temporal 3 k)))
    ]

optimal-Answer :
    (brs : Bitrates) (n m : ℕ) (x : Search)
    → Answer nonzero brs n m x
    → ((found_rate x ≡ some (pos 0)) × ((s t : ℕ) → s < n → t < m → nonzero (brs s t) ≡ false))
      ⊎ ((s : ℕ) × (t : ℕ) × (found_rate x ≡ some (brs s t)) × IsHighest nonzero brs n m s t)
unfolding Answer
optimal-Answer brs n m panics a = absurd a
optimal-Answer brs n m absent a = inl (refl, a)
optimal-Answer brs n m (found v r) (s, t, e, er, h) = inr (s, t, ap some er, h)

-- Of a track that is not muted and has been published, with a maximum within the array, the optimal
-- bandwidth is 0 and so are the bitrates of all layers within the maximum, or it is the bitrate of
-- the layer that is not 0 and that no other such layer comes after, spatial layers compared first.
pub get_optimal_bandwidth_needed-IsHighest :
    (published : ℤ) (brs : Bitrates) (n m : ℕ)
    → eqb_ℤ published invalid ≡ false
    → n < 3
    → m < 4
    → ((get_optimal_bandwidth_needed false false published brs (layer_at n m) ≡ some (pos 0))
        × ((s t : ℕ) → s < suc n → t < suc m → nonzero (brs s t) ≡ false))
      ⊎ ((s : ℕ) × (t : ℕ) × (get_optimal_bandwidth_needed false false published brs (layer_at n m)
            ≡ some (brs s t))
          × IsHighest nonzero brs (suc n) (suc m) s t)
unfolding get_optimal_bandwidth_needed
get_optimal_bandwidth_needed-IsHighest published brs n m e h k =
    rw (e, turns_zero n, turns_zero m)
      (optimal-Answer brs (suc n) (suc m) (down nonzero brs (suc n) (suc m))
        (down-Answer nonzero brs (suc n) (suc m) (omega arith) (omega arith)))
