-- ===== src/Dynacast/Regress.antt =====
-- pkg/rtc/dynacast/dynacastquality.go: the quality that is kept and notified is the highest one that
-- is needed, also after `RegressTo`.
use voicekit.Prelude.{
  ℕ, ◌≤◌, ◌≡◌, ◌≢◌, ◌⊎◌, inl, inr, refl, sym, ap, ◌∙◌, Bool, true, false, ◌&&◌, some, none, List,
  [], ◌∷◌, ◌++◌, max, ltb, ◌==◌, arith, Bool-cases, ltb→lt,
}
use mathlib.Core.List.{map-append}
use mathlib.Core.Path.{subst}
use voicekit.Dynacast.{
  Qualities, values, put_higher, merge, DynacastQuality, needed, update_quality_change, regress_to,
  reset,
}
use voicekit.Dynacast.Highest.{
  All, All-append, maximum, maximum-append, top_of, highest-off, highest-append,
}

abbrev pub Has : ℕ → List ℕ → Type 0
Has q [] = ⊥
Has q (x ∷ xs) = (q ≡ x) ⊎ Has q xs

-- No entry has the quality `off`.
abbrev pub IsOn : ℕ → Qualities → Type 0
IsOn off m = All (λ q. q ≢ off) (values m)

-- `off` if nothing is asked for, else the highest quality among those asked for.
abbrev pub IsNeeded : ℕ → ℕ → List ℕ → Type 0
IsNeeded off q qs = ((q ≡ off) × (qs ≡ [])) ⊎ (Has q qs × All (λ p. p ≤ q) qs)

All-le_mono : (a b : ℕ) (xs : List ℕ) → a ≤ b → All (λ p. p ≤ a) xs → All (λ p. p ≤ b) xs
All-le_mono a b [] h all = tt
All-le_mono a b (x ∷ xs) h all = (omega (arith, all.0), All-le_mono a b xs h all.1)

All-le-maximum : (xs : List ℕ) → All (λ p. p ≤ maximum xs) xs
All-le-maximum [] = tt
All-le-maximum (x ∷ xs) = (
  omega arith,
  All-le_mono (maximum xs) (max x (maximum xs)) xs (omega arith) (All-le-maximum xs),
)

Has-maximum : (x : ℕ) (xs : List ℕ) → Has (maximum (x ∷ xs)) (x ∷ xs)
Has-maximum x [] = inl (omega arith)
Has-maximum x (y ∷ ys) = elim (Bool-cases (ltb x (maximum (y ∷ ys)))) [
  | inl e ↦
      let top : maximum (x ∷ y ∷ ys) ≡ maximum (y ∷ ys) =
        omega (arith, ltb→lt x (maximum (y ∷ ys)) e) in
      inr (subst (λ q. Has q (y ∷ ys)) (sym top) (Has-maximum y ys))
  | inr e ↦ inl (ground arith)
]

top_of-IsNeeded : (off : ℕ) (qs : List ℕ) → IsNeeded off (top_of off qs) qs
top_of-IsNeeded off [] = inl (refl, refl)
top_of-IsNeeded off (x ∷ xs) = inr (Has-maximum x xs, All-le-maximum (x ∷ xs))

needed-top_of :
    (off : ℕ) (subs nodes : Qualities)
    → IsOn off subs
    → IsOn off nodes
    → needed off subs nodes ≡ top_of off (values subs ++ values nodes)
unfolding needed
needed-top_of off subs nodes h k =
    highest-append off off (values subs) (values nodes)
    ∙ highest-off off (values subs ++ values nodes)
        (All-append (λ q. q ≢ off) (values subs) (values nodes) h k)

update-max :
    (off : ℕ) (d : DynacastQuality) (force : Bool)
    → let (d', note) = update_quality_change off d force in
      (d'.max_subscribed_quality
        ≡ needed off d.max_subscriber_quality d.max_subscriber_node_quality)
      × ((note ≡ none) ⊎ (note ≡ some d'.max_subscribed_quality))
unfolding update_quality_change
update-max off d force = ground arith

-- After an update, the quality that is kept is the highest that any subscriber or node needs, or
-- off if none needs any; what is notified, if anything is, is that quality. This holds in whatever
-- order the loops meet the entries.
pub update_quality_change-IsNeeded :
    (off : ℕ) (d : DynacastQuality) (force : Bool)
    → IsOn off d.max_subscriber_quality
    → IsOn off d.max_subscriber_node_quality
    → let (d', note) = update_quality_change off d force in
      IsNeeded off d'.max_subscribed_quality
        (values d.max_subscriber_quality ++ values d.max_subscriber_node_quality)
      × ((note ≡ none) ⊎ (note ≡ some d'.max_subscribed_quality))
update_quality_change-IsNeeded off d force h k =
    let (kept, note) = update-max off d force in
    (
      rw (kept, needed-top_of off d.max_subscriber_quality d.max_subscriber_node_quality h k)
          (top_of-IsNeeded off _),
      note,
    )

abbrev is_nil {ℓ} : {A : Type ℓ} → List A → Bool
is_nil [] = true
is_nil (x ∷ xs) = false

top_of-eq :
    (off : ℕ) (xs ys : List ℕ)
    → maximum xs ≡ maximum ys
    → is_nil xs ≡ is_nil ys
    → top_of off xs ≡ top_of off ys
top_of-eq off [] [] h e = refl
top_of-eq off [] (y ∷ ys) h e = absurd (ground arith)
top_of-eq off (x ∷ xs) [] h e = absurd (ground arith)
top_of-eq off (x ∷ xs) (y ∷ ys) h e = h

put_higher-maximum :
    (id q : ℕ) (m : Qualities) → maximum (values (put_higher id q m)) ≡ max q (maximum (values m))
unfolding put_higher
put_higher-maximum id q [] = refl
put_higher-maximum id q ((j, p) ∷ rest) = ground (arith, put_higher-maximum id q rest)

put_higher-is_nil : (id q : ℕ) (m : Qualities) → is_nil (values (put_higher id q m)) ≡ false
unfolding put_higher
put_higher-is_nil id q [] = refl
put_higher-is_nil id q ((j, p) ∷ rest) = ground arith

put_higher-IsOn :
    (off id q : ℕ) (m : Qualities) → q ≢ off → IsOn off m → IsOn off (put_higher id q m)
unfolding put_higher
put_higher-IsOn off id q [] h all = (h, tt)
put_higher-IsOn off id q ((j, p) ∷ rest) h all = elim (Bool-cases (j == id)) [
  | inl e ↦ elim (Bool-cases (ltb p q)) [ inl l ↦ rw (e, l) (h, all.1) | inr l ↦ rw (e, l) all ]
  | inr e ↦ rw e (all.0, put_higher-IsOn off id q rest h all.1)
]

and_false : (b : Bool) → (b && false) ≡ false
and_false true = refl
and_false false = refl

-- The merged entries are on, and have the maximum of both; there is none only if neither had one.
merge_lem :
    (off : ℕ) (m other : Qualities)
    → IsOn off m
    → IsOn off other
    → IsOn off (merge m other)
      × (maximum (values (merge m other)) ≡ max (maximum (values m)) (maximum (values other)))
      × (is_nil (values (merge m other)) ≡ (is_nil (values m) && is_nil (values other)))
unfolding merge
merge_lem off [] other h k = (k, omega arith, refl)
merge_lem off ((id, q) ∷ rest) other h k =
    let (on, top, blank) =
      merge_lem off rest (put_higher id q other) h.1 (put_higher-IsOn off id q other h.0 k) in
    (
      on,
      omega (arith, top, put_higher-maximum id q other),
      blank
          ∙ ap (λ b. is_nil (values rest) && b) (put_higher-is_nil id q other)
          ∙ and_false (is_nil (values rest)),
    )

is_nil-append : (xs ys : List ℕ) → is_nil (xs ++ ys) ≡ (is_nil xs && is_nil ys)
is_nil-append [] ys = refl
is_nil-append (x ∷ xs) ys = refl

IsOn-append : (off : ℕ) (a b : Qualities) → IsOn off a → IsOn off b → IsOn off (a ++ b)
IsOn-append off a b h k =
    rw (map-append (λ e. e.1) a b) (All-append (λ q. q ≢ off) (values a) (values b) h k)

-- Taken together, the merged maps need what the maps side by side need.
top_of-merge :
    (off : ℕ) (a b c d : Qualities)
    → IsOn off a
    → IsOn off b
    → IsOn off c
    → IsOn off d
    → top_of off (values (merge a b) ++ values (merge c d))
      ≡ top_of off (values (a ++ b) ++ values (c ++ d))
top_of-merge off a b c d ha hb hc hd =
    let (_, top, blank) = merge_lem off a b ha hb in
    let (_, top', blank') = merge_lem off c d hc hd in
    let left : values (a ++ b) ≡ values a ++ values b = map-append (λ e. e.1) a b in
    let right : values (c ++ d) ≡ values c ++ values d = map-append (λ e. e.1) c d in
    top_of-eq off _ _
      (rw
        (
          left,
          right,
          maximum-append (values (merge a b)) (values (merge c d)),
          maximum-append (values a ++ values b) (values c ++ values d),
          maximum-append (values a) (values b),
          maximum-append (values c) (values d),
          top,
          top',
        )
        refl)
      (rw
        (
          left,
          right,
          is_nil-append (values (merge a b)) (values (merge c d)),
          is_nil-append (values a ++ values b) (values c ++ values d),
          is_nil-append (values a) (values b),
          is_nil-append (values c) (values d),
          blank,
          blank',
        )
        refl)

-- After `RegressTo`, what the other quality needs is what both needed together, and the one that
-- regressed needs nothing any more.
pub needed-regress_to :
    (off : ℕ) (d other : DynacastQuality)
    → IsOn off d.max_subscriber_quality
    → IsOn off d.max_subscriber_node_quality
    → IsOn off other.max_subscriber_quality
    → IsOn off other.max_subscriber_node_quality
    → let (d', other') = regress_to d other in
      (needed off other'.max_subscriber_quality other'.max_subscriber_node_quality
        ≡ needed off
            (d.max_subscriber_quality ++ other.max_subscriber_quality)
            (d.max_subscriber_node_quality ++ other.max_subscriber_node_quality))
      × (needed off d'.max_subscriber_quality d'.max_subscriber_node_quality ≡ off)
unfolding regress_to reset
needed-regress_to off d other h k h' k' =
    let subs = merge_lem off d.max_subscriber_quality other.max_subscriber_quality h h' in
    let nodes =
      merge_lem off d.max_subscriber_node_quality other.max_subscriber_node_quality k k' in
    (
      needed-top_of off _ _ subs.0 nodes.0
          ∙ top_of-merge off d.max_subscriber_quality other.max_subscriber_quality
              d.max_subscriber_node_quality other.max_subscriber_node_quality h h' k k'
          ∙ sym (
              needed-top_of off _ _
                (IsOn-append off d.max_subscriber_quality other.max_subscriber_quality h h')
                (IsOn-append off d.max_subscriber_node_quality other.max_subscriber_node_quality k
                  k')),
      needed-top_of off [] [] tt tt,
    )
