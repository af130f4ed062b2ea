-- ===== src/FrameIntegrity/Window.antt =====
-- pkg/sfu/buffer/frameintegrity.go, a history that numbers are added to, and what it answers for the
-- last of them.
use voicekit.Prelude.{
  ℕ, zero, suc, ◌+◌, ◌-◌, ◌*◌, ◌/◌, ◌%◌, ◌≤◌, ◌<◌, Bool, true, false, ◌&&◌, ◌||◌, some, List, [],
  ◌∷◌, length, length-replicate, replicate, get_or, ltb, ◌==◌, if◌then◌else◌, ◌≡◌, refl, sym, ap,
  ◌∙◌, arith, u64_mod,
}
use mathlib.Core.Path.{subst}
use native.Mathlib.Decide.{ℕ_discrete}
use voicekit.Prelude.Bits.{bit, bit_zero}
use voicekit.FrameIntegrity.{
  PacketHistory, new_packet_history, position, mark, first_packet, add_packet, packets_consecutive,
}
use voicekit.FrameIntegrity.Positions.{IsRing}
use voicekit.FrameIntegrity.Consecutive.{
  packets_consecutive-Has, packets_consecutive-some, some-true,
}
use voicekit.FrameIntegrity.Marks.{bit_of, bit_of-mark_self, bit_of-mark_other, mark-IsRing}
use voicekit.FrameIntegrity.Received.{
  Came, put, put_self, put_other, places_differ, Tracks, Tracks-add_packet,
}

unfoldable pub add_all : PacketHistory → List ℕ → PacketHistory
add_all ph [] = ph
add_all ph (s ∷ seqs) = add_all (add_packet ph s) seqs

-- The numbers of a list, after some others
unfoldable pub came_in : Came → List ℕ → Came
came_in came [] = came
came_in came (s ∷ seqs) = came_in (put s came) seqs

unfoldable pub AreSequences : List ℕ → Type 0
AreSequences [] = Unit
AreSequences (s ∷ seqs) = (s < u64_mod) × AreSequences seqs

Tracks-add_all :
    (seqs : List ℕ) (ph : PacketHistory) (came : Came)
    → AreSequences seqs
    → Tracks ph came
    → Tracks (add_all ph seqs) (came_in came seqs)
unfolding add_all came_in AreSequences
Tracks-add_all [] ph came small t = t
Tracks-add_all (s ∷ seqs) ph came small t =
    Tracks-add_all seqs (add_packet ph s) (put s came) small.1
      (Tracks-add_packet ph s came t small.0)

zeros : (k i : ℕ) → get_or {A = ℕ} (replicate k 0) i 0 ≡ 0
zeros zero i = refl
zeros (suc k) zero = refl
zeros (suc k) (suc i) = zeros k i

pub none_came : Came
none_came x = 0

-- The first number of a history whose bits are all 0
Tracks-first :
    (ph : PacketHistory) (s : ℕ)
    → ph.packet_count ≡ length ph.bits * 64
    → 2 ≤ length ph.bits
    → ((i : ℕ) → get_or ph.bits i 0 ≡ 0)
    → s < u64_mod
    → Tracks (first_packet ph s) (put s none_came)
unfolding first_packet mark position none_came
Tracks-first ph s counted several empty h =
    let base = if ltb 100 s then s - 100 else 0 in
    let start : PacketHistory = record ph { inited = true; base = base; last = s } in
    let low : base ≤ s = ground arith in
    let r : IsRing start = record {
      counted = counted;
      several = several;
      are_words = λ i. subst (λ w. w < u64_mod) (sym (empty i)) (omega arith);
      based = omega arith;
    } in
    let own = mark-IsRing start r s true in
    record {
      ring = record {
        counted = own.counted;
        several = own.several;
        are_words = own.are_words;
        based = own.based;
      };
      started = refl;
      ordered = low;
      bounded = h;
      tracked = λ x a b c. elim (ℕ_discrete x s) [
        | yes e ↦
            bit_of-mark_self start r s true x (ap (position start) e)
            ∙ (sym (put_self s none_came) ∙ ap (put s none_came) (sym e))
        | no ne ↦
            bit_of-mark_other start r s true x (
              places_differ start x s r (omega arith) low (omega arith) h (omega arith)
                (omega arith) ne)
            ∙ (ap (λ w. bit w (position start x % 64)) (empty (position start x / 64))
                ∙ (bit_zero (position start x % 64) ∙ sym (put_other s x none_came ne)))
      ];
      none_after = λ x a. put_other s x none_came (omega arith);
    }

pub Tracks-new :
    (n first : ℕ) (seqs : List ℕ)
    → 64 < n
    → AreSequences (first ∷ seqs)
    → Tracks (add_all (new_packet_history n) (first ∷ seqs)) (came_in none_came (first ∷ seqs))
unfolding new_packet_history add_all came_in AreSequences add_packet
Tracks-new n first seqs h small =
    let ph = new_packet_history n in
    let words : length ph.bits ≡ (n + 63) / 64 * 64 / 64 =
      length-replicate ((n + 63) / 64 * 64 / 64) 0 in
    Tracks-add_all seqs (first_packet ph first) (put first none_came) small.1
      (Tracks-first ph first (omega arith) (omega arith) (zeros ((n + 63) / 64 * 64 / 64)) small.0)

unfoldable pub listed : ℕ → List ℕ → Bool
listed x [] = false
listed x (s ∷ seqs) = x == s || listed x seqs

-- The number `start` and the next d are listed.
unfoldable pub all_listed : List ℕ → ℕ → ℕ → Bool
all_listed seqs start zero = listed start seqs
all_listed seqs start (suc d) = all_listed seqs start d && listed (start + suc d) seqs

either : (a b : Bool) (c : ℕ) → (if b then 1 else if a then 1 else c) ≡ (if a || b then 1 else c)
either a b c = ground arith

both_true : (a b : Bool) → (a && b) ≡ true → (a ≡ true) × (b ≡ true)
both_true a b h = ground arith

came_in-listed :
    (seqs : List ℕ) (came : Came) (x : ℕ)
    → came_in came seqs x ≡ (if listed x seqs then 1 else came x)
unfolding came_in listed put
came_in-listed [] came x = refl
came_in-listed (s ∷ seqs) came x =
    came_in-listed seqs (put s came) x ∙ either (x == s) (listed x seqs) (came x)

all_listed-all :
    (seqs : List ℕ) (start d : ℕ)
    → all_listed seqs start d ≡ true
    → (k : ℕ) → k ≤ d
    → listed (start + k) seqs ≡ true
unfolding all_listed
all_listed-all seqs start zero h k l = let e : start + k ≡ start = omega arith in rw e h
all_listed-all seqs start (suc d) h k l = elim (ℕ_discrete k (suc d)) [
  | yes e ↦ rw e (both_true (all_listed seqs start d) (listed (start + suc d) seqs) h).1
  | no ne ↦
      all_listed-all seqs start d
        (both_true (all_listed seqs start d) (listed (start + suc d) seqs) h).0 k (omega arith)
]

all-all_listed :
    (seqs : List ℕ) (start d : ℕ)
    → ((k : ℕ) → k ≤ d → listed (start + k) seqs ≡ true)
    → all_listed seqs start d ≡ true
unfolding all_listed
all-all_listed seqs start zero h =
    let e : start + 0 ≡ start = omega arith in
    subst (λ x. listed x seqs ≡ true) e (h 0 (omega arith))
all-all_listed seqs start (suc d) h =
    let a = all-all_listed seqs start d (λ k l. h k (omega arith)) in
    let b = h (suc d) (omega arith) in rw (a, b) refl

same_truth : (a b : Bool) → (a ≡ true → b ≡ true) → (b ≡ true → a ≡ true) → a ≡ b
same_truth true b f g = sym (f refl)
same_truth false true f g = g refl
same_truth false false f g = refl

listed_digit :
    (b : Bool)
    → ((if◌then◌else◌ {A = ℕ} b 1 0) ≡ 1 → b ≡ true)
      × (b ≡ true → (if◌then◌else◌ {A = ℕ} b 1 0) ≡ 1)
listed_digit b = ground arith

-- The bit of a number of the window
Tracks-listed :
    (ph : PacketHistory) (seqs : List ℕ) (x : ℕ)
    → Tracks ph (came_in none_came seqs)
    → ph.base < x
    → x ≤ ph.last
    → ph.last < x + ph.packet_count
    → bit_of ph x ≡ (if listed x seqs then 1 else 0)
unfolding none_came
Tracks-listed ph seqs x t h k l = t.tracked x h k l ∙ came_in-listed seqs none_came x

pub window_answer :
    (ph : PacketHistory) (seqs : List ℕ) (start d : ℕ)
    → Tracks ph (came_in none_came seqs)
    → ph.base < start
    → start + d ≤ ph.last
    → ph.last < start + ph.packet_count
    → packets_consecutive ph start (start + d) ≡ some (all_listed seqs start d)
window_answer ph seqs start d t h k l =
    let bound = t.bounded in
    let has = packets_consecutive-Has ph start d t.ring (omega arith) (omega arith) (omega arith) in
    let any =
      packets_consecutive-some ph start d t.ring (omega arith) (omega arith) (omega arith) in
    let digit = λ (i : ℕ) (a : i ≤ d).
      Tracks-listed ph seqs (start + i) t (omega arith) (omega arith) (omega arith) in
    any.1
    ∙ ap some (
        same_truth any.0 (all_listed seqs start d)
          (λ e. all-all_listed seqs start d (λ i a.
            (listed_digit (listed (start + i) seqs)).0
              (sym (digit i a) ∙ has.0 (any.1 ∙ ap some e) i a)))
          (λ e. some-true any.0 (
            sym any.1
            ∙ has.1 (λ i a.
              digit i a
              ∙ (listed_digit (listed (start + i) seqs)).1 (all_listed-all seqs start d e i a)))))

-- Numbers below 2 ^ 64 were added to a new history for more than 64 packets. For a run of numbers above
-- the base, which ends at the last or before it and starts less than the size before the last, the
-- history answers whether each number of the run was added.
pub packets_consecutive-all_listed :
    (n first : ℕ) (seqs : List ℕ) (start d : ℕ)
    → 64 < n
    → AreSequences (first ∷ seqs)
    → (add_all (new_packet_history n) (first ∷ seqs)).base < start
    → start + d ≤ (add_all (new_packet_history n) (first ∷ seqs)).last
    → (add_all (new_packet_history n) (first ∷ seqs)).last
      < start + (add_all (new_packet_history n) (first ∷ seqs)).packet_count
    → packets_consecutive (add_all (new_packet_history n) (first ∷ seqs)) start (start + d)
      ≡ some (all_listed (first ∷ seqs) start d)
packets_consecutive-all_listed n first seqs start d h small low high near =
    window_answer (add_all (new_packet_history n) (first ∷ seqs)) (first ∷ seqs) start d
      (Tracks-new n first seqs h small) low high near
