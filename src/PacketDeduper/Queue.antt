-- ===== src/PacketDeduper/Queue.antt =====
-- pkg/rtc/user_packet_deduper.go: the specification, a queue of the last hundred identifiers, and what
-- its linked entries are.
use voicekit.Prelude.{
  ℕ, suc, Bool, true, false, ◌||◌, Option, none, some, List, [], ◌∷◌, ◌++◌, length, drop, ◌==◌, ◌≡◌,
  refl, ap, ◌∙◌, Bool-cases, inl, inr, arith, if◌then◌else◌,
}
use voicekit.PacketDeduper.{Seen, has, put}

unfoldable pub mem : ℕ → List ℕ → Bool
mem id [] = false
mem id (a ∷ qs) = a == id || mem id qs

unfoldable pub keep : List ℕ → List ℕ
keep queue = if length queue == 101 then drop 1 queue else queue

-- The specification: a queue of identifiers, the oldest first, of which a hundred are kept.
unfoldable pub push : List ℕ → ℕ → List ℕ × Bool
push queue id = if mem id queue then (queue, true) else (keep (queue ++ id ∷ []), false)

-- An identifier that cannot be read is no duplicate, and is not kept.
unfoldable pub push_nonce : (List ℕ → Option ℕ) → List ℕ → List ℕ → List ℕ × Bool
push_nonce from_bytes queue nonce = elim (from_bytes nonce) [
  | none ↦ (queue, false)
  | some id ↦ push queue id
]

unfoldable pub queue_answers : (List ℕ → Option ℕ) → List ℕ → List (List ℕ) → List Bool
queue_answers from_bytes queue [] = []
queue_answers from_bytes queue (nonce ∷ nonces) =
    let r = push_nonce from_bytes queue nonce in r.1 ∷ queue_answers from_bytes r.0 nonces

-- The entries of a queue, each to the next one
unfoldable pub links : ℕ → List ℕ → Seen
links a [] = []
links a (b ∷ bs) = (a, b) ∷ links b bs

unfoldable pub last : ℕ → List ℕ → ℕ
last a [] = a
last a (b ∷ bs) = last b bs

unfoldable pub Distinct : List ℕ → Type 0
Distinct [] = Unit
Distinct (a ∷ qs) = (mem a qs ≡ false) × Distinct qs

or_false_right : (b : Bool) {c : Bool} → (b || c) ≡ false → c ≡ false
or_false_right false h = h
or_false_right true h = absurd (ground arith)

or_true : (b : Bool) → (b || true) ≡ true
or_true b = ground arith

first_not_last : (a b : ℕ) (bs : List ℕ) → mem a (b ∷ bs) ≡ false → (a == last b bs) ≡ false
unfolding mem last
first_not_last a b [] h = ground arith
first_not_last a b (c ∷ cs) h = first_not_last a c cs (or_false_right (b == a) h)

pub has-links :
    (id a : ℕ) (bs : List ℕ) → (last a bs == id || has id (links a bs)) ≡ mem id (a ∷ bs)
unfolding links last has mem
has-links id a [] = ground arith
has-links id a (b ∷ bs) = elim (Bool-cases (a == id)) [
  | inl e ↦ rw e (or_true (last b bs == id))
  | inr e ↦ rw e (has-links id b bs)
]

-- The newest identifier has no entry.
pub put-links :
    (id a : ℕ) (bs : List ℕ)
    → Distinct (a ∷ bs)
    → put (last a bs) id (links a bs) ≡ links a (bs ++ id ∷ [])
unfolding links last put Distinct
put-links id a [] h = refl
put-links id a (b ∷ bs) h = rw (first_not_last a b bs h.0, put-links id b bs h.1) refl

pub length-links : (a : ℕ) (bs : List ℕ) → length (links a bs) ≡ length bs
unfolding links
length-links a [] = refl
length-links a (b ∷ bs) = ap suc (length-links b bs)

pub last-append : (id a : ℕ) (bs : List ℕ) → last a (bs ++ id ∷ []) ≡ id
unfolding last
last-append id a [] = refl
last-append id a (b ∷ bs) = last-append id b bs

pub length-append_one : (id : ℕ) (bs : List ℕ) → length (bs ++ id ∷ []) ≡ suc (length bs)
length-append_one id [] = refl
length-append_one id (b ∷ bs) = ap suc (length-append_one id bs)

mem-append_one : (x id : ℕ) (qs : List ℕ) → mem x (qs ++ id ∷ []) ≡ (mem x qs || id == x)
unfolding mem
mem-append_one x id [] = ground arith
mem-append_one x id (a ∷ qs) = elim (Bool-cases (a == x)) [
  | inl e ↦ rw e refl
  | inr e ↦ rw e (mem-append_one x id qs)
]

or_false : (b c : Bool) → (b || c) ≡ false → (b ≡ false) × (c ≡ false)
or_false false c h = (refl, h)
or_false true c h = absurd (ground arith)

eqb_comm : (a b : ℕ) → (a == b) ≡ (b == a)
eqb_comm a b = ground arith

pub Distinct-append_one :
    (id : ℕ) (qs : List ℕ) → Distinct qs → mem id qs ≡ false → Distinct (qs ++ id ∷ [])
unfolding Distinct mem
Distinct-append_one id [] h k = (refl, tt)
Distinct-append_one id (a ∷ qs) h k =
    let other = or_false (a == id) (mem id qs) k in
    (
      rw (mem-append_one a id qs, h.0) (eqb_comm id a ∙ other.0),
      Distinct-append_one id qs h.1 other.1,
    )
