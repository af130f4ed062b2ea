-- ===== src/Bitrates/Lowest.antt =====
-- pkg/sfu/forwarder.go, the searches upwards of AllocateNextHigher: what they find.
use voicekit.Prelude.{
  ℕ, zero, suc, ◌+◌, ◌<◌, ◌≤◌, Bool, true, ◌≡◌, refl, Bool-cases, inl, inr, arith,
}
use voicekit.Prelude.Int.{ℤ, pos, ◌+ℤ◌, ◌-ℤ◌, ◌≤ℤ◌, add_lem, sub_lem, one_sign}
use voicekit.Bitrates.{Bitrates, Search, panics, absent, found, or_later, row_up, up, turns, lowest}
use voicekit.Bitrates.Highest.{layer_at, rate-at}

-- A search that starts at s, t finds no layer, or one of the array with a wanted bitrate that is at
-- least s, t in both components.
unfoldable pub UpAnswer : (ℤ → Bool) → Bitrates → ℕ → ℕ → Search → Type 0
UpAnswer wanted brs s t panics = ⊥
UpAnswer wanted brs s t absent = Unit
UpAnswer wanted brs s t (found v r) =
    (i : ℕ) × (j : ℕ) × (v ≡ layer_at i j)
    × (r ≡ brs i j)
    × (wanted r ≡ true)
    × ((s ≤ i) × (i < 3) × (t ≤ j) × (j < 4))

pub UpAnswer-weaken :
    (wanted : ℤ → Bool) (brs : Bitrates) (s s' t t' : ℕ) (x : Search)
    → s' ≤ s
    → t' ≤ t
    → UpAnswer wanted brs s t x
    → UpAnswer wanted brs s' t' x
unfolding UpAnswer
UpAnswer-weaken wanted brs s s' t t' panics h k a = a
UpAnswer-weaken wanted brs s s' t t' absent h k a = tt
UpAnswer-weaken wanted brs s s' t t' (found v r) h k (i, j, e, er, w, (a, b, c, d)) =
    (i, j, e, er, w, (omega arith, b, omega arith, d))

pub UpAnswer-or_later :
    (wanted : ℤ → Bool) (brs : Bitrates) (s t : ℕ) (x y : Search)
    → UpAnswer wanted brs s t x
    → UpAnswer wanted brs s t y
    → UpAnswer wanted brs s t (or_later x y)
unfolding UpAnswer
UpAnswer-or_later wanted brs s t panics y a b = a
UpAnswer-or_later wanted brs s t absent y a b = b
UpAnswer-or_later wanted brs s t (found v r) y a b = a

pub pos_suc : (k : ℕ) → pos k +ℤ pos 1 ≡ pos (suc k)
pos_suc k = ground arith

row_up-UpAnswer :
    (wanted : ℤ → Bool) (brs : Bitrates) (s t n : ℕ)
    → s < 3
    → n + t ≤ 4
    → UpAnswer wanted brs s t (row_up wanted brs (pos s) (pos t) n)
unfolding row_up UpAnswer
row_up-UpAnswer wanted brs s t zero h k = tt
row_up-UpAnswer wanted brs s t (suc n) h k =
    rw (rate-at brs s t h (omega arith), pos_suc t)
      (elim (Bool-cases (wanted (brs s t))) [
        | inl w ↦ rw w (s, t, refl, refl, w, (omega arith, h, omega arith, omega arith))
        | inr w ↦ rw w (
            UpAnswer-weaken wanted brs s s (suc t) t (row_up wanted brs (pos s) (pos (suc t)) n)
              (omega arith) (omega arith) (row_up-UpAnswer wanted brs s (suc t) n h (omega arith)))
      ])

up-UpAnswer :
    (wanted : ℤ → Bool) (brs : Bitrates) (s n t m : ℕ)
    → n + s ≤ 3
    → m + t ≤ 4
    → UpAnswer wanted brs s t (up wanted brs (pos s) n (pos t) m)
unfolding up UpAnswer
up-UpAnswer wanted brs s zero t m h k = tt
up-UpAnswer wanted brs s (suc n) t m h k = rw (pos_suc s) (
    UpAnswer-or_later wanted brs s t (row_up wanted brs (pos s) (pos t) m)
      (up wanted brs (pos (suc s)) n (pos t) m) (row_up-UpAnswer wanted brs s t m (omega arith) k)
      (UpAnswer-weaken wanted brs (suc s) s t t (up wanted brs (pos (suc s)) n (pos t) m)
        (omega arith) (omega arith) (up-UpAnswer wanted brs (suc s) n t m (omega arith) k)))

turns_room : (k n : ℕ) (b : ℤ) → k ≤ suc n → b ≤ℤ pos n → turns (pos k) b + k ≤ suc n
turns_room k n b h l =
    let e1 = sub_lem b (pos k) in
    let e2 = add_lem (b -ℤ pos k) (pos 1) in let e3 = one_sign (b -ℤ pos k +ℤ pos 1) in ground arith

pub lowest-UpAnswer :
    (wanted : ℤ → Bool) (brs : Bitrates) (s t : ℕ) (max_spatial max_temporal : ℤ)
    → s ≤ 3
    → t ≤ 4
    → max_spatial ≤ℤ pos 2
    → max_temporal ≤ℤ pos 3
    → UpAnswer wanted brs s t (lowest wanted brs (pos s) max_spatial (pos t) max_temporal)
lowest-UpAnswer wanted brs s t max_spatial max_temporal h k l m =
    up-UpAnswer wanted brs s (turns (pos s) max_spatial) t (turns (pos t) max_temporal)
      (turns_room s 2 max_spatial h l) (turns_room t 3 max_temporal k m)
