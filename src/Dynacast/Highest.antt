-- ===== src/Dynacast/Highest.antt =====
-- pkg/rtc/dynacast/dynacastquality.go: `updateQualityChange` computes a maximum.
use voicekit.Prelude.{
  ℕ, ◌≤◌, ◌≡◌, ◌≢◌, refl, ◌∙◌, false, not, ◌&&◌, ◌||◌, List, [], ◌∷◌, ◌++◌, max, ltb, ◌==◌,
  if◌then◌else◌, arith, Bool-cases, inl, inr, ltb→lt, ne→==, eq→==,
}
use voicekit.Dynacast.{highest}

ltb_false→le : (a b : ℕ) → ltb a b ≡ false → b ≤ a
ltb_false→le a b h = ground arith

abbrev pub All {ℓ κ} : {A : Type ℓ} → (A → Type κ) → List A → Type κ
All P [] = Unit
All P (x ∷ xs) = P x × All P xs

-- The maximum, at least 0.
abbrev pub maximum : List ℕ → ℕ
maximum [] = 0
maximum (x ∷ xs) = max x (maximum xs)

pub All-append {ℓ κ} :
    {A : Type ℓ} (P : A → Type κ) (xs ys : List A) → All P xs → All P ys → All P (xs ++ ys)
All-append P [] ys h k = k
All-append P (x ∷ xs) ys h k = (h.0, All-append P xs ys h.1 k)

pub maximum-append : (xs ys : List ℕ) → maximum (xs ++ ys) ≡ max (maximum xs) (maximum ys)
maximum-append [] ys = omega arith
maximum-append (x ∷ xs) ys = omega (arith, maximum-append xs ys)

module _ (off : ℕ) where
  highest-started :
      (top : ℕ) (qs : List ℕ)
      → top ≢ off
      → All (λ q. q ≢ off) qs
      → highest off top qs ≡ max top (maximum qs)
  unfolding highest
  highest-started top [] h all = omega arith
  highest-started top (q ∷ qs) h all = elim (Bool-cases (ltb top q)) [
    | inl e ↦
        rw (ne→== top off h, ne→== q off all.0, e)
          (highest-started q qs all.0 all.1 ∙ omega (arith, ltb→lt top q e))
    | inr e ↦
        rw (ne→== top off h, ne→== q off all.0, e)
          (highest-started top qs h all.1 ∙ omega (arith, ltb_false→le top q e))
  ]

  -- The quality that is needed, among those asked for: none, or the maximum.
  abbrev pub top_of : List ℕ → ℕ
  top_of [] = off
  top_of (x ∷ xs) = maximum (x ∷ xs)

  pub highest-off : (qs : List ℕ) → All (λ q. q ≢ off) qs → highest off off qs ≡ top_of qs
  unfolding highest
  highest-off [] all = refl
  highest-off (q ∷ qs) all = rw (eq→== off off refl) (highest-started q qs all.0 all.1)

  -- Two loops, one after the other, are one over both lists.
  pub highest-append :
      (top : ℕ) (xs ys : List ℕ) → highest off (highest off top xs) ys ≡ highest off top (xs ++ ys)
  unfolding highest
  highest-append top [] ys = refl
  highest-append top (x ∷ xs) ys =
      highest-append (if top == off || (not (x == off) && ltb top x) then x else top) xs ys
