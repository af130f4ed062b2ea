-- ===== src/FrameIntegrity/Received.antt =====
-- pkg/sfu/buffer/frameintegrity.go, AddPacket of PacketHistory: the ring holds which numbers came.
use voicekit.Prelude.{
  ℕ, zero, suc, ◌+◌, ◌-◌, ◌*◌, ◌≤◌, ◌<◌, Bool, true, false, not, length, ltb, leb, ◌==◌, eq→==,
  if◌then◌else◌, ◌≡◌, ◌≢◌, refl, sym, ap, ◌∙◌, Bool-cases, inl, inr, arith, u64_mod,
}
use mathlib.Core.Path.{subst}
use native.Mathlib.Decide.{dec_lt, ℕ_discrete}
use voicekit.FrameIntegrity.{PacketHistory, position, mark, clear_from, ahead, add_packet}
use voicekit.FrameIntegrity.Positions.{IsRing, mod_further, position_small, position_add}
use voicekit.FrameIntegrity.Marks.{bit_of, bit_of-mark_self, bit_of-mark_other, mark-IsRing}

-- Which numbers came, as a digit for each
abbrev pub Came : Type 0
Came = ℕ → ℕ

unfoldable pub put : ℕ → Came → Came
put s came x = if x == s then 1 else came x

pub put_self : (s : ℕ) (came : Came) → put s came s ≡ 1
unfolding put
put_self s came = rw (eq→== s s refl) refl

pub put_other : (s x : ℕ) (came : Came) → x ≢ s → put s came x ≡ came x
unfolding put
put_other s x came h = let e : (x == s) ≡ false = ground arith in rw e refl

-- The bits of the last numbers, above the base, are those that came, and none came after the last.
pub record Tracks (ph : PacketHistory) (came : Came) : Type 0 where
  pub ring : IsRing ph
  pub started : ph.inited ≡ true
  pub ordered : ph.base ≤ ph.last
  pub bounded : ph.last < u64_mod
  pub tracked :
      (x : ℕ) → ph.base < x → x ≤ ph.last → ph.last < x + ph.packet_count → bit_of ph x ≡ came x
  pub none_after : (x : ℕ) → ph.last < x → came x ≡ 0

-- Numbers less than the size apart have different places.
apart :
    (ph : PacketHistory) (x k : ℕ)
    → IsRing ph
    → ph.base ≤ x
    → x + k < u64_mod
    → 0 < k
    → k < length ph.bits * 64
    → position ph (x + k) ≢ position ph x
apart ph x k r h l pos_k m e =
    let p = position ph x in
    let low = position_small ph x r in
    let f = sym e ∙ (position_add ph x k r h l ∙ mod_further p k (length ph.bits * 64) low m) in
    absurd (ground arith)

pub places_differ :
    (ph : PacketHistory) (x y : ℕ)
    → IsRing ph
    → ph.base ≤ x
    → ph.base ≤ y
    → x < u64_mod
    → y < u64_mod
    → x < y + ph.packet_count
    → y < x + ph.packet_count
    → x ≢ y
    → position ph x ≢ position ph y
places_differ ph x y r hx hy lx ly nx ny ne =
    let c = r.counted in
    elim (dec_lt x y) [
      | yes less ↦
          let e : x + (y - x) ≡ y = omega arith in
          λ same.
            apart ph x (y - x) r hx (omega arith) (omega arith) (omega arith)
              (ap (position ph) e ∙ sym same)
      | no more ↦
          let e : y + (x - y) ≡ x = omega arith in
          λ same.
            apart ph y (x - y) r hy (omega arith) (omega arith) (omega arith)
              (ap (position ph) e ∙ same)
    ]

IsRing-last : (ph : PacketHistory) (l : ℕ) → IsRing ph → IsRing (record ph { last = l })
IsRing-last ph l r = record {
  counted = r.counted;
  several = r.several;
  are_words = r.are_words;
  based = r.based;
}

-- The next number is taken, with the bit that the numbers that came say.
pub Tracks-next :
    (ph : PacketHistory) (l : ℕ) (b : Bool) (came after : Came)
    → Tracks (record ph { last = l }) came
    → l + 1 < u64_mod
    → after (l + 1) ≡ (if b then 1 else 0)
    → ((x : ℕ) → x ≢ l + 1 → after x ≡ came x)
    → Tracks (record (mark ph (l + 1) b) { last = l + 1 }) after
unfolding mark position
Tracks-next ph l b came after t h at others =
    let r = t.ring in
    let base = t.ordered in
    record {
      ring =
          IsRing-last (mark (record ph { last = l }) (l + 1) b) (l + 1)
            (mark-IsRing (record ph { last = l }) r (l + 1) b);
      started = t.started;
      ordered = omega arith;
      bounded = h;
      tracked = λ x low high near. elim (ℕ_discrete x (l + 1)) [
        | yes e ↦
            bit_of-mark_self (record ph { last = l }) r (l + 1) b x (ap (position ph) e)
            ∙ (sym at ∙ ap after (sym e))
        | no ne ↦
            bit_of-mark_other (record ph { last = l }) r (l + 1) b x
              (places_differ (record ph { last = l }) x (l + 1) r (omega arith) (omega arith)
                (omega arith) h (omega arith) near ne)
            ∙ (t.tracked x low (omega arith) (omega arith) ∙ sym (others x ne))
      ];
      none_after = λ x high. others x (omega arith) ∙ t.none_after x (omega arith);
    }

Tracks-clear_from :
    (n : ℕ) (ph : PacketHistory) (l : ℕ) (came : Came)
    → Tracks (record ph { last = l }) came
    → l + n < u64_mod
    → Tracks (record (clear_from ph (l + 1) n) { last = l + n }) came
unfolding clear_from
Tracks-clear_from zero ph l came t h =
    subst (λ m. Tracks (record ph { last = m }) came) (omega arith) t
Tracks-clear_from (suc n) ph l came t h =
    subst
      (λ m. Tracks (record (clear_from (mark ph (l + 1) false) (l + 1 + 1) n) { last = m }) came)
      (omega arith)
      (Tracks-clear_from n (mark ph (l + 1) false) (l + 1) came
        (Tracks-next ph l false came came t (omega arith) (t.none_after (l + 1) (omega arith))
          (λ x ne. refl))
        (omega arith))

Tracks-ahead :
    (ph : PacketHistory) (s : ℕ) (came : Came)
    → Tracks ph came
    → ph.last < s
    → s < u64_mod
    → Tracks (ahead ph s) (put s came)
unfolding ahead
Tracks-ahead ph s came t h k =
    let n = s - (ph.last + 1) in
    let e : ph.last + n + 1 ≡ s = omega arith in
    subst
      (λ m. Tracks (record (mark (clear_from ph (ph.last + 1) n) m true) { last = m }) (put s came))
      e
      (Tracks-next (clear_from ph (ph.last + 1) n) (ph.last + n) true came (put s came)
        (Tracks-clear_from n ph ph.last came t (omega arith)) (omega arith)
        (ap (put s came) e ∙ put_self s came) (λ x ne. put_other s x came (λ f. ne (f ∙ sym e))))

-- A number of the window
Tracks-mark :
    (ph : PacketHistory) (s : ℕ) (came : Came)
    → Tracks ph came
    → ph.base < s
    → s ≤ ph.last
    → ph.last < s + ph.packet_count
    → Tracks (mark ph s true) (put s came)
unfolding mark position
Tracks-mark ph s came t low high near =
    let r = t.ring in
    let l = t.bounded in
    record {
      ring = mark-IsRing ph r s true;
      started = t.started;
      ordered = t.ordered;
      bounded = t.bounded;
      tracked = λ x a b c. elim (ℕ_discrete x s) [
        | yes e ↦
            bit_of-mark_self ph r s true x (ap (position ph) e)
            ∙ (sym (put_self s came) ∙ ap (put s came) (sym e))
        | no ne ↦
            bit_of-mark_other ph r s true x (
              places_differ ph x s r (omega arith) (omega arith) (omega arith) (omega arith)
                (omega arith) (omega arith) ne)
            ∙ (t.tracked x a b c ∙ sym (put_other s x came ne))
      ];
      none_after = λ x a. put_other s x came (omega arith) ∙ t.none_after x a;
    }

-- A number before the window
Tracks-old :
    (ph : PacketHistory) (s : ℕ) (came : Came)
    → Tracks ph came
    → s ≤ ph.last
    → ((x : ℕ) → ph.base < x → ph.last < x + ph.packet_count → x ≢ s)
    → Tracks ph (put s came)
Tracks-old ph s came t high old = record {
  ring = t.ring;
  started = t.started;
  ordered = t.ordered;
  bounded = t.bounded;
  tracked = λ x a b c. t.tracked x a b c ∙ sym (put_other s x came (old x a c));
  none_after = λ x a. put_other s x came (omega arith) ∙ t.none_after x a;
}

pub Tracks-add_packet :
    (ph : PacketHistory) (s : ℕ) (came : Came)
    → Tracks ph came
    → s < u64_mod
    → Tracks (add_packet ph s) (put s came)
unfolding add_packet
Tracks-add_packet ph s came t h =
    let e : not ph.inited ≡ false = ap not t.started in
    rw e (elim (Bool-cases (leb s ph.base)) [
      | inl old ↦ rw old (
          Tracks-old ph s came t (let o = t.ordered in ground arith)
            (λ x a c e. absurd (ground arith)))
      | inr young ↦ elim (Bool-cases (leb s ph.last)) [
        | inr past ↦ rw (young, past) (Tracks-ahead ph s came t (ground arith) h)
        | inl before ↦ elim (Bool-cases (ltb (ph.last - s) ph.packet_count)) [
          | inl near ↦
              rw (young, before, near)
                (Tracks-mark ph s came t (ground arith) (ground arith) (ground arith))
          | inr far ↦
              rw (young, before, far)
                (Tracks-old ph s came t (ground arith) (λ x a c e. absurd (ground arith)))
        ]
      ]
    ])
