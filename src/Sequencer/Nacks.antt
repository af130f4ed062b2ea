-- ===== src/Sequencer/Nacks.antt =====
-- pkg/sfu/sequencer.go: `getExtPacketMetas` sends a packet again at most `maxAck` times, and not
-- again within the time that is ignored.
use voicekit.Prelude.{
  ℕ, zero, suc, ◌+◌, ◌^◌, ◌≤◌, Bool, true, false, none, some, Option, List, [], ◌∷◌, get_or, set,
  arith, ltb, if◌then◌else◌, ◌<◌, ◌==◌, ◌≡◌, refl, ap, ◌∙◌, ◌*◌, ◌||◌, not, length, Bool-cases, inl,
  inr,
}
use voicekit.Sequencer.{
  PacketMeta, empty_meta, Sequencer, ExtPacketMeta, max_ack, answer_nack, answer_in, nack_one,
  answer_all, prepend, may_resend, is_invalid_slot, extend_sn, slot_of,
}

abbrev pub All {ℓ κ} : {A : Type ℓ} → (A → Type κ) → List A → Type κ
All P [] = Unit
All P (x ∷ xs) = P x × All P xs

abbrev pub IsBounded : PacketMeta → Type 0
IsBounded m = m.nacked ≤ max_ack

All-set {ℓ κ} :
    {A : Type ℓ} (P : A → Type κ) (xs : List A) (i : ℕ) (v : A)
    → All P xs
    → P v
    → All P (set xs i v)
All-set P [] i v h p = h
All-set P (x ∷ xs) zero v h p = (p, h.1)
All-set P (x ∷ xs) (suc i) v h p = (h.0, All-set P xs i v h.1 p)

-- A packet that is sent again: it was found, and how often it was asked for is counted.
abbrev pub IsCounted : ExtPacketMeta → Type 0
IsCounted m = (1 ≤ m.meta.nacked) × (m.meta.nacked ≤ max_ack)

-- How often the packets with an outgoing number were sent again, by the counters of the window
unfoldable pub nacks_of : ℕ → List PacketMeta → ℕ
nacks_of k [] = 0
nacks_of k (m ∷ ms) = (if m.target_seq_no == k then m.nacked else 0) + nacks_of k ms

-- The slots that hold a packet with an outgoing number
unfoldable pub slots_of : ℕ → List PacketMeta → ℕ
slots_of k [] = 0
slots_of k (m ∷ ms) = (if m.target_seq_no == k then 1 else 0) + slots_of k ms

-- The packets with an outgoing number that are sent again
unfoldable pub times_sent : ℕ → List ExtPacketMeta → ℕ
times_sent k [] = 0
times_sent k (m ∷ ms) = (if m.meta.target_seq_no == k then 1 else 0) + times_sent k ms

-- The counters of the window account for all that is sent again.
abbrev pub Accounts : List PacketMeta → List PacketMeta → List ExtPacketMeta → Type 0
Accounts before after outs =
    (k : ℕ)
    → (nacks_of k after ≡ nacks_of k before + times_sent k outs)
      × (slots_of k after ≡ slots_of k before)

Accounts-refl : (metas : List PacketMeta) → Accounts metas metas []
unfolding times_sent
Accounts-refl metas k = (omega arith, refl)

nacks_of-set :
    (k : ℕ) (metas : List PacketMeta) (slot time : ℕ)
    → slot < length metas
    → let m = get_or metas slot empty_meta in
      let after = set metas slot (record m { nacked = m.nacked + 1; last_nack = time }) in
      (nacks_of k after ≡ nacks_of k metas + (if m.target_seq_no == k then 1 else 0))
      × (slots_of k after ≡ slots_of k metas)
unfolding nacks_of slots_of
nacks_of-set k [] slot time h = absurd (omega arith)
nacks_of-set k (m ∷ ms) zero time h = elim (Bool-cases (m.target_seq_no == k)) [
  | inl e ↦ rw e (omega arith, refl)
  | inr e ↦ rw e (omega arith, refl)
]
nacks_of-set k (m ∷ ms) (suc slot) time h =
    let rest = nacks_of-set k ms slot time (omega arith) in
    (omega arith, ap (λ n. (if m.target_seq_no == k then 1 else 0) + n) rest.1)

answer_nack-IsBounded :
    (s : Sequencer) (ref_time sn slot : ℕ)
    → All IsBounded s.meta
    → let (s', out) = answer_nack s ref_time sn slot in
      All IsBounded s'.meta
      × All IsCounted (prepend out [])
      × Accounts s.meta s'.meta (prepend out [])
unfolding answer_nack times_sent
answer_nack-IsBounded s ref_time sn slot h =
    let m = get_or s.meta slot empty_meta in
    elim (Bool-cases (not (m.target_seq_no == sn) || is_invalid_slot s.meta slot)) [
      | inl other ↦ rw other (h, tt, Accounts-refl s.meta)
      | inr found ↦ elim (Bool-cases (may_resend s ref_time m)) [
        | inr refused ↦ rw (found, refused) (h, tt, Accounts-refl s.meta)
        | inl sent ↦
            rw (found, sent)
              (
                All-set IsBounded s.meta slot
                    (record m { nacked = m.nacked + 1; last_nack = ref_time }) h (ground arith),
                (ground arith, tt),
                λ k.
                    let (n, same) = nacks_of-set k s.meta slot ref_time (ground arith) in
                    (omega arith, same),
              )
      ]
    ]

nack_one-IsBounded :
    (s : Sequencer) (ref_time sn : ℕ)
    → All IsBounded s.meta
    → let (s', out) = nack_one s ref_time sn in
      All IsBounded s'.meta
      × All IsCounted (prepend out [])
      × Accounts s.meta s'.meta (prepend out [])
unfolding nack_one
nack_one-IsBounded s ref_time sn h = go (ltb (2 ^ 15) _) (slot_of s (extend_sn s sn))
  where
    go :
        (b : Bool) (o : Option ℕ)
        → let (s', out) = if b then (s, none) else answer_in s ref_time sn o in
          All IsBounded s'.meta
          × All IsCounted (prepend out [])
          × Accounts s.meta s'.meta (prepend out [])
    go true o = (h, tt, Accounts-refl s.meta)
    go false none = (h, tt, Accounts-refl s.meta)
    go false (some slot) = answer_nack-IsBounded s ref_time sn slot h

All-prepend {ℓ κ} :
    {A : Type ℓ} (P : A → Type κ) (o : Option A) (xs : List A)
    → All P (prepend o [])
    → All P xs
    → All P (prepend o xs)
All-prepend P none xs h k = k
All-prepend P (some x) xs h k = (h.0, k)

times_sent-prepend :
    (k : ℕ) (o : Option ExtPacketMeta) (outs : List ExtPacketMeta)
    → times_sent k (prepend o outs) ≡ times_sent k (prepend o []) + times_sent k outs
unfolding times_sent
times_sent-prepend k none outs = omega arith
times_sent-prepend k (some x) outs = omega arith

-- In a bounded window, the counters of an outgoing number are at most `maxAck` for each of its slots.
nacks_of-IsBounded :
    (k : ℕ) (metas : List PacketMeta)
    → All IsBounded metas
    → nacks_of k metas ≤ max_ack * slots_of k metas
unfolding nacks_of slots_of
nacks_of-IsBounded k [] h = omega arith
nacks_of-IsBounded k (m ∷ ms) h =
    let rest = nacks_of-IsBounded k ms h.1 in
    let first = h.0 in
    elim (Bool-cases (m.target_seq_no == k)) [
      | inl e ↦ rw e (omega arith)
      | inr e ↦ rw e (omega arith)
    ]

answer_all-Accounts :
    (s : Sequencer) (ref_time : ℕ) (sns : List ℕ)
    → All IsBounded s.meta
    → let (s', outs) = answer_all s ref_time sns in
      All IsBounded s'.meta × All IsCounted outs × Accounts s.meta s'.meta outs
unfolding answer_all
answer_all-Accounts s ref_time [] h = (h, tt, Accounts-refl s.meta)
answer_all-Accounts s ref_time (sn ∷ sns) h =
    let (h', one, first) = nack_one-IsBounded s ref_time sn h in
    let (h'', more, later) = answer_all-Accounts (nack_one s ref_time sn).0 ref_time sns h' in
    (
      h'',
      All-prepend IsCounted (nack_one s ref_time sn).1 _ one more,
      λ k.
          let sum =
            times_sent-prepend k (nack_one s ref_time sn).1
              (answer_all (nack_one s ref_time sn).0 ref_time sns).1 in
          let (a, b) = first k in let (c, d) = later k in (omega arith, d ∙ b),
    )

-- Where no counter of the window is above `maxAck`, however often packets are asked for, none of the
-- counters gets above it, and each packet that is sent again has been counted. The counters that are kept
-- account for all that is sent: those of an outgoing number grow by as often as its packets are sent
-- again. So these are, with what was counted before, at most `maxAck` for each slot with that number.
pub answer_all-IsBounded :
    (s : Sequencer) (ref_time : ℕ) (sns : List ℕ)
    → All IsBounded s.meta
    → let (s', outs) = answer_all s ref_time sns in
      All IsBounded s'.meta
      × All IsCounted outs
      × ((k : ℕ) → nacks_of k s'.meta ≡ nacks_of k s.meta + times_sent k outs)
      × ((k : ℕ) → nacks_of k s.meta + times_sent k outs ≤ max_ack * slots_of k s.meta)
answer_all-IsBounded s ref_time sns h =
    let (bounded, counted, accounts) = answer_all-Accounts s ref_time sns h in
    (
      bounded,
      counted,
      λ k. (accounts k).0,
      λ k.
          let (a, b) = accounts k in
          let c = nacks_of-IsBounded k (answer_all s ref_time sns).0.meta bounded in omega arith,
    )
