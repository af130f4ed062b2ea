-- ===== src/Sequencer/Slots.antt =====
-- pkg/sfu/sequencer.go: the slots of the window, and the loop that clears those of missing numbers.
use native.Mathlib.Decide.{dec_lt, ℕ_discrete}
use native.Mathlib.Nat.{mod-add-mod, mod-eq_of_lt, mod-eq-sub-mod, mod-lt, mod-le}
use voicekit.Prelude.{
  ℕ, zero, suc, ◌+◌, ◌-◌, ◌%◌, ◌^◌, ◌≤◌, ◌<◌, ◌≡◌, ◌≢◌, refl, sym, ap, ◌∙◌, List, [], ◌∷◌, length,
  length-set, get_or, get_or-set_ne, set, arith, add64, eq→==, ne→==,
}
use voicekit.Sequencer.{PacketMeta, empty_meta, invalidate_slot, invalidate_missing}

add-mod-ne : (size h k : ℕ) → h < size → 0 < k → k < size → (h + k) % size ≢ h
add-mod-ne size h k hh hk lt = elim (dec_lt (h + k) size) [
  | yes p ↦ omega (arith, mod-eq_of_lt p)
  | no p ↦ omega (
    arith,
    mod-eq-sub-mod {n = h + k} {m = size} (omega arith),
    mod-eq_of_lt {n = h + k - size} {m = size} (omega arith),
  )
]

-- Two numbers less than `size` apart have different slots.
pub slot-ne : (size a b : ℕ) → a < b → b < a + size → a % size ≢ b % size
slot-ne size a b lt near e =
    add-mod-ne size (a % size) (b - a) (omega arith) (omega arith) (omega arith)
      (mod-add-mod a size (b - a) ∙ ap (λ t. t % size) (omega arith) ∙ sym e)

pub length-invalidate_missing :
    (size rounds esn target : ℕ) (meta : List PacketMeta)
    → length (invalidate_missing size rounds esn target meta) ≡ length meta
unfolding invalidate_missing
length-invalidate_missing size zero esn target meta = refl
length-invalidate_missing size (suc rounds) esn target meta = ground (
  arith,
  length-invalidate_missing size rounds (add64 esn 1) target (invalidate_slot meta (esn % size)),
  length-set meta (esn % size) empty_meta,
)

-- The loop leaves a slot alone that none of the missing numbers has.
pub invalidate_missing-keeps :
    (size rounds esn target n : ℕ) (meta : List PacketMeta)
    → n < esn
    → esn ≤ target
    → target ≤ n + size
    → target < 2 ^ 63
    → get_or (invalidate_missing size rounds esn target meta) (n % size) empty_meta
      ≡ get_or meta (n % size) empty_meta
unfolding invalidate_missing
invalidate_missing-keeps size zero esn target n meta lt le near room = refl
invalidate_missing-keeps size (suc rounds) esn target n meta lt le near room =
    elim (dec_lt esn target) [
      | yes more ↦
          let next : add64 esn 1 ≡ esn + 1 = omega arith in
          rw (ne→== esn target (omega arith), next)
            (invalidate_missing-keeps size rounds (esn + 1) target n
                (invalidate_slot meta (esn % size)) (omega arith) (omega arith) near room
              ∙ get_or-set_ne meta empty_meta empty_meta
                  (λ e. slot-ne size n esn lt (omega arith) (sym e)))
      | no done ↦ rw (eq→== esn target (omega arith))
    ]

module _ {ℓ} {A : Type ℓ} where
  get_or-set_default : (xs : List A) (i : ℕ) (d : A) → get_or (set xs i d) i d ≡ d
  get_or-set_default [] i d = refl
  get_or-set_default (x ∷ xs) zero d = refl
  get_or-set_default (x ∷ xs) (suc i) d = get_or-set_default xs i d

  get_or-set_stays :
      (xs : List A) (i j : ℕ) (d : A) → get_or xs j d ≡ d → get_or (set xs i d) j d ≡ d
  get_or-set_stays [] i j d h = refl
  get_or-set_stays (x ∷ xs) zero zero d h = refl
  get_or-set_stays (x ∷ xs) zero (suc j) d h = h
  get_or-set_stays (x ∷ xs) (suc i) zero d h = h
  get_or-set_stays (x ∷ xs) (suc i) (suc j) d h = get_or-set_stays xs i j d h

stays_empty :
    (size rounds esn target slot : ℕ) (meta : List PacketMeta)
    → get_or meta slot empty_meta ≡ empty_meta
    → get_or (invalidate_missing size rounds esn target meta) slot empty_meta ≡ empty_meta
unfolding invalidate_missing
stays_empty size zero esn target slot meta h = h
stays_empty size (suc rounds) esn target slot meta h = elim (ℕ_discrete esn target) [
  | yes done ↦ rw (eq→== esn target done) h
  | no more ↦ rw (ne→== esn target more) (
      stays_empty size rounds (add64 esn 1) target slot (invalidate_slot meta (esn % size))
        (get_or-set_stays meta (esn % size) slot empty_meta h))
]

clears_near :
    (size rounds esn target n : ℕ) (meta : List PacketMeta)
    → esn ≤ n
    → n < target
    → n < esn + rounds
    → target < 2 ^ 63
    → get_or (invalidate_missing size rounds esn target meta) (n % size) empty_meta ≡ empty_meta
unfolding invalidate_missing
clears_near size zero esn target n meta le lt near room = absurd (omega arith)
clears_near size (suc rounds) esn target n meta le lt near room =
    rw (ne→== esn target (omega arith)) (elim (ℕ_discrete esn n) [
      | yes here ↦
          stays_empty size rounds (add64 esn 1) target (n % size)
            (invalidate_slot meta (esn % size))
            (rw here (get_or-set_default meta (n % size) empty_meta))
      | no later ↦
          let next : add64 esn 1 ≡ esn + 1 = omega arith in
          rw next (
            clears_near size rounds (esn + 1) target n (invalidate_slot meta (esn % size))
              (omega arith) lt (omega arith) room)
    ])

-- With `size` rounds the loop clears the slots of all missing numbers, however many there are.
pub invalidate_missing-clears :
    (size esn target n : ℕ) (meta : List PacketMeta)
    → 0 < size
    → esn ≤ n
    → n < target
    → target < 2 ^ 63
    → get_or (invalidate_missing size size esn target meta) (n % size) empty_meta ≡ empty_meta
invalidate_missing-clears size esn target n meta pos le lt room =
    let e = (n - esn) % size + esn in
    let bound = mod-lt (n - esn) pos in
    let same : e % size ≡ n % size =
      mod-add-mod (n - esn) size esn ∙ ap (λ t. t % size) (omega arith) in
    rw (← same) (
      clears_near size size esn target e meta (omega arith) (omega (arith, mod-le (n - esn) size))
        (omega (arith, bound)) room)
