-- ===== src/Sequencer/Again.antt =====
-- pkg/sfu/sequencer.go: a packet that was sent again is not sent once more at once.
use voicekit.Prelude.{
  ℕ, ◌+◌, ◌-◌, ◌*◌, ◌%◌, ◌^◌, ◌≤◌, ◌<◌, ◌≡◌, refl, sym, ap, ◌∙◌, Bool, true, false, none, some,
  Option, get_or, set, get_or-set_self, length, min, arith, u32_mod, ltb, if◌then◌else◌, ◌&&◌,
  le→ltb_false,
}
use native.Mathlib.Nat.{mod-lt}
use voicekit.Prelude.{sub16, sub64, u16_mod}
use voicekit.RangeMap.{Result, ok, err}
use voicekit.Sequencer.{
  PacketMeta, empty_meta, Sequencer, ExtPacketMeta, ignore_retransmission, max_ack, may_resend,
  answer_nack, answer_in, nack_one, extend_sn, slot_of, slot_from, offset_at,
}

-- The time in milliseconds that passed since a packet was last asked for, in 32 bits.
abbrev pub elapsed : ℕ → ℕ → ℕ
elapsed now last = (now + u32_mod - last) % u32_mod

counted_at : Sequencer → ℕ → ℕ → Sequencer
counted_at s t slot =
    let m = get_or s.meta slot empty_meta in
    record s { meta = set s.meta slot (record m { nacked = m.nacked + 1; last_nack = t }) }

answer_nack-counted :
    (s : Sequencer) (t sn slot : ℕ) (m : ExtPacketMeta)
    → (answer_nack s t sn slot).1 ≡ some m
    → (answer_nack s t sn slot).0 ≡ counted_at s t slot
unfolding answer_nack counted_at
answer_nack-counted s t sn slot m e = ground arith

if_same {ℓ} : {A : Type ℓ} (b : Bool) (x : A) → (if b then x else x) ≡ x
if_same true x = refl
if_same false x = refl

and_false : (b : Bool) → (b && false) ≡ false
and_false true = refl
and_false false = refl

answer_nack-refused :
    (s : Sequencer) (u sn slot : ℕ)
    → may_resend s u (get_or s.meta slot empty_meta) ≡ false
    → answer_nack s u sn slot ≡ (s, none)
unfolding answer_nack
answer_nack-refused s u sn slot e = rw e (if_same _ (s, none))

may_resend-soon :
    (s : Sequencer) (t u : ℕ) (m : PacketMeta)
    → m.last_nack ≡ t
    → elapsed u t ≤ min ignore_retransmission (2 * s.rtt % u32_mod)
    → may_resend s u m ≡ false
may_resend-soon s t u m e soon =
    rw (e, le→ltb_false (min ignore_retransmission (2 * s.rtt % u32_mod)) (elapsed u t) soon)
      (and_false (ltb m.nacked max_ack))

answer_nack-again :
    (s : Sequencer) (t u sn slot : ℕ) (m : ExtPacketMeta)
    → slot < length s.meta
    → elapsed u t ≤ min ignore_retransmission (2 * s.rtt % u32_mod)
    → (answer_nack s t sn slot).1 ≡ some m
    → answer_nack (answer_nack s t sn slot).0 u sn slot ≡ ((answer_nack s t sn slot).0, none)
unfolding counted_at
answer_nack-again s t u sn slot m h soon e =
    let old = get_or s.meta slot empty_meta in
    let held : get_or (counted_at s t slot).meta slot empty_meta
        ≡ record old { nacked = old.nacked + 1; last_nack = t } =
      get_or-set_self s.meta slot _ empty_meta h in
    rw (answer_nack-counted s t sn slot m e) (
      answer_nack-refused (counted_at s t slot) u sn slot (
        may_resend-soon (counted_at s t slot) t u
          (get_or (counted_at s t slot).meta slot empty_meta) (ap (λ p. p.last_nack) held) soon))

abbrev is_ahead : Sequencer → ℕ → Bool
is_ahead s sn = ltb (2 ^ 15) (sub16 (s.ext_highest_sn % u16_mod) sn)

slot_of-lt : (s : Sequencer) (n slot : ℕ) → 0 < s.size → slot_of s n ≡ some slot → slot < s.size
unfolding slot_of
slot_of-lt s n slot pos e = go (offset_at s n) e
  where
    go : (r : Result) → slot_from s n r ≡ some slot → slot < s.size
    go (err e) h = ground arith
    go (ok v) h = let bound = mod-lt (sub64 n v) pos in ground arith

slot_of-counted : (s : Sequencer) (t slot n : ℕ) → slot_of (counted_at s t slot) n ≡ slot_of s n
unfolding slot_of counted_at
slot_of-counted s t slot n = refl

nack_one-answer :
    (s : Sequencer) (t sn slot : ℕ)
    → is_ahead s sn ≡ false
    → slot_of s (extend_sn s sn) ≡ some slot
    → nack_one s t sn ≡ answer_nack s t sn slot
unfolding nack_one
nack_one-answer s t sn slot h e = rw (h, e) refl

nack_one-cases :
    (s : Sequencer) (t sn : ℕ) (m : ExtPacketMeta)
    → (nack_one s t sn).1 ≡ some m
    → (is_ahead s sn ≡ false) × ((slot : ℕ) × (slot_of s (extend_sn s sn) ≡ some slot))
unfolding nack_one
nack_one-cases s t sn m = go (is_ahead s sn) (slot_of s (extend_sn s sn))
  where
    go :
        (b : Bool) (o : Option ℕ)
        → (if b then (s, none) else answer_in s t sn o).1 ≡ some m
        → (b ≡ false) × ((slot : ℕ) × (o ≡ some slot))
    go true o h = ground arith
    go false none h = ground arith
    go false (some slot) h = (refl, (slot, refl))

nack_one-counted :
    (s : Sequencer) (t u sn slot : ℕ)
    → is_ahead s sn ≡ false
    → slot_of s (extend_sn s sn) ≡ some slot
    → nack_one (counted_at s t slot) u sn ≡ answer_nack (counted_at s t slot) u sn slot
unfolding counted_at
nack_one-counted s t u sn slot gate at =
    nack_one-answer (counted_at s t slot) u sn slot gate
      (slot_of-counted s t slot (extend_sn s sn) ∙ at)

-- A packet that was sent again is not sent once more within the time in which requests are ignored,
-- that is 100 ms or two round trips if these are less; the second request changes nothing.
pub nack_one-again :
    (s : Sequencer) (t u sn : ℕ) (m : ExtPacketMeta)
    → length s.meta ≡ s.size
    → 0 < s.size
    → elapsed u t ≤ min ignore_retransmission (2 * s.rtt % u32_mod)
    → (nack_one s t sn).1 ≡ some m
    → nack_one (nack_one s t sn).0 u sn ≡ ((nack_one s t sn).0, none)
nack_one-again s t u sn m len pos soon e =
    let (gate, (slot, at)) = nack_one-cases s t sn m e in
    let first = nack_one-answer s t sn slot gate at in
    let sent : (answer_nack s t sn slot).1 ≡ some m = ap (λ p. p.1) (sym first) ∙ e in
    let second : nack_one (answer_nack s t sn slot).0 u sn
        ≡ answer_nack (answer_nack s t sn slot).0 u sn slot =
      ap (λ s'. nack_one s' u sn) (answer_nack-counted s t sn slot m sent)
      ∙ nack_one-counted s t u sn slot gate at
      ∙ ap (λ s'. answer_nack s' u sn slot) (sym (answer_nack-counted s t sn slot m sent)) in
    rw first (
      second
      ∙ answer_nack-again s t u sn slot m
          (omega (arith, len, slot_of-lt s (extend_sn s sn) slot pos at)) soon sent)
