-- ===== src/PacketDeduper/Recent.antt =====
-- pkg/rtc/user_packet_deduper.go: a deduper answers as the queue.
use voicekit.Prelude.{
  ℕ, suc, ◌<◌, Bool, true, false, ◌||◌, Option, List, [], ◌∷◌, ◌++◌, length, ◌==◌, ◌≡◌, refl, ap,
  ◌∙◌, Bool-cases, Option-cases, inl, inr, arith, eq→==,
}
use mathlib.Core.Path.{sym}
use voicekit.PacketDeduper.{
  has, get, put, delete, UserPacketDeduper, new_user_packet_deduper, forget, is_duplicate_id,
  is_duplicate, answers,
}
use voicekit.PacketDeduper.Queue.{
  mem, keep, push, push_nonce, queue_answers, links, last, Distinct, has-links, put-links,
  length-links, last-append, length-append_one, Distinct-append_one,
}

-- The state is that of the queue a, bs.
record IsQueue (u : UserPacketDeduper) (a : ℕ) (bs : List ℕ) : Type 0 where
  linked : u.seen ≡ links a bs
  oldest : u.tail ≡ a
  newest : u.head ≡ last a bs
  distinct : Distinct (a ∷ bs)
  short : length bs < 100

found-mem :
    (u : UserPacketDeduper) (id a : ℕ) (bs : List ℕ)
    → IsQueue u a bs
    → (u.head == id || has id u.seen) ≡ mem id (a ∷ bs)
found-mem u id a bs q =
    ap (λ h. h == id || has id u.seen) q.newest
    ∙ (ap (λ s. last a bs == id || has id s) q.linked ∙ has-links id a bs)

-- The oldest entry leads to the next one, and is the one that goes.
forget-oldest :
    (u : UserPacketDeduper) (a b : ℕ) (cs : List ℕ)
    → u.seen ≡ links a (b ∷ cs)
    → u.tail ≡ a
    → (get u.tail u.seen ≡ b) × (delete u.tail u.seen ≡ links b cs)
unfolding links get delete
forget-oldest u a b cs linked oldest =
    let same = eq→== a a refl in
    (
      ap (λ t. get t u.seen) oldest ∙ (ap (get a) linked ∙ rw same refl),
      ap (λ t. delete t u.seen) oldest ∙ (ap (delete a) linked ∙ rw same refl),
    )

forgotten :
    (u : UserPacketDeduper) (a : ℕ) (bs : List ℕ)
    → u.seen ≡ links a bs
    → u.tail ≡ a
    → u.head ≡ last a bs
    → Distinct (a ∷ bs)
    → (length bs == 100) ≡ true
    → (b : ℕ) × (cs : List ℕ) × (bs ≡ b ∷ cs)
      × IsQueue (record u { tail = get u.tail u.seen; seen = delete u.tail u.seen }) b cs
unfolding last Distinct
forgotten u a [] linked oldest newest distinct e = absurd (ground arith)
forgotten u a (b ∷ cs) linked oldest newest distinct e =
    let gone = forget-oldest u a b cs linked oldest in
    (
      b,
      cs,
      refl,
      record {
        linked = gone.1;
        oldest = gone.0;
        newest = newest;
        distinct = distinct.1;
        short = ground arith;
      },
    )

-- A queue of at most 101, of which `forget` keeps a hundred as `keep` does
forget-IsQueue :
    (u : UserPacketDeduper) (a : ℕ) (bs : List ℕ)
    → u.seen ≡ links a bs
    → u.tail ≡ a
    → u.head ≡ last a bs
    → Distinct (a ∷ bs)
    → length bs < 101
    → (b : ℕ) × (cs : List ℕ) × (keep (a ∷ bs) ≡ b ∷ cs) × IsQueue (forget u) b cs
unfolding forget keep
forget-IsQueue u a bs linked oldest newest distinct short =
    let size = ap length linked ∙ length-links a bs in
    elim (Bool-cases (length bs == 100)) [
      | inr e ↦
          let other : (suc (length bs) == 101) ≡ false = ground arith in
          rw (size, e, other)
            (
              a,
              bs,
              refl,
              record {
                linked = linked;
                oldest = oldest;
                newest = newest;
                distinct = distinct;
                short = ground arith;
              },
            )
      | inl e ↦
          let other : (suc (length bs) == 101) ≡ true = ground arith in
          rw (size, e, other) (forgotten u a bs linked oldest newest distinct e)
    ]

-- A step of the two keeps them alike.
Alike : UserPacketDeduper × Bool → List ℕ × Bool → Type 0
Alike r s = (r.1 ≡ s.1) × ((b : ℕ) × (cs : List ℕ) × (s.0 ≡ b ∷ cs) × IsQueue r.0 b cs)

is_duplicate_id-Alike :
    (u : UserPacketDeduper) (id a : ℕ) (bs : List ℕ)
    → IsQueue u a bs
    → Alike (is_duplicate_id u id) (push (a ∷ bs) id)
unfolding is_duplicate_id push Alike
is_duplicate_id-Alike u id a bs q =
    let known = found-mem u id a bs q in
    elim (Bool-cases (mem id (a ∷ bs))) [
      | inl e ↦ rw (known, e) (refl, (a, bs, refl, q))
      | inr e ↦
          let linked =
            ap (λ h. put h id u.seen) q.newest
            ∙ (ap (put (last a bs) id) q.linked ∙ put-links id a bs q.distinct) in
          let short : length (bs ++ id ∷ []) < 101 =
            (let h = q.short in let k = length-append_one id bs in omega arith) in
          rw (known, e)
            (
              refl,
              forget-IsQueue (record u { seen = put u.head id u.seen; head = id }) a (bs ++ id ∷ [])
                  linked q.oldest (sym (last-append id a bs))
                  (Distinct-append_one id (a ∷ bs) q.distinct e) short,
            )
    ]

is_duplicate-Alike :
    (from_bytes : List ℕ → Option ℕ) (u : UserPacketDeduper) (nonce : List ℕ) (a : ℕ) (bs : List ℕ)
    → IsQueue u a bs
    → Alike (is_duplicate from_bytes u nonce) (push_nonce from_bytes (a ∷ bs) nonce)
unfolding is_duplicate push_nonce Alike
is_duplicate-Alike from_bytes u nonce a bs q = elim (Option-cases (from_bytes nonce)) [
  | inl e ↦ rw (e, is_duplicate, push_nonce) (refl, (a, bs, refl, q))
  | inr (id, e) ↦ rw (e, is_duplicate, push_nonce) (is_duplicate_id-Alike u id a bs q)
]

answers-IsQueue :
    (from_bytes : List ℕ → Option ℕ) (u : UserPacketDeduper) (nonces : List (List ℕ)) (a : ℕ)
    (bs : List ℕ)
    → IsQueue u a bs
    → answers from_bytes u nonces ≡ queue_answers from_bytes (a ∷ bs) nonces
unfolding answers queue_answers Alike
answers-IsQueue from_bytes u [] a bs q = refl
answers-IsQueue from_bytes u (nonce ∷ nonces) a bs q =
    let r = is_duplicate from_bytes u nonce in
    let s = push_nonce from_bytes (a ∷ bs) nonce in
    let (same, (b, cs, e, q')) = is_duplicate-Alike from_bytes u nonce a bs q in
    let rest = answers-IsQueue from_bytes r.0 nonces b cs q' in
    ap (λ x. x ∷ answers from_bytes r.0 nonces) same
    ∙ ap (λ xs. s.1 ∷ xs) (rest ∙ ap (λ queue. queue_answers from_bytes queue nonces) (sym e))

-- On every sequence of packets, a new deduper answers as a queue of the last hundred identifiers
-- that starts with the zero identifier in it. A packet whose identifier cannot be read is no
-- duplicate and leaves the queue.
pub answers-queue_answers :
    (from_bytes : List ℕ → Option ℕ) (nonces : List (List ℕ))
    → answers from_bytes new_user_packet_deduper nonces ≡ queue_answers from_bytes (0 ∷ []) nonces
unfolding links last Distinct mem
answers-queue_answers from_bytes nonces =
    answers-IsQueue from_bytes new_user_packet_deduper nonces 0 [] (record {
      linked = refl;
      oldest = refl;
      newest = refl;
      distinct = (refl, tt);
      short = omega arith;
    })
