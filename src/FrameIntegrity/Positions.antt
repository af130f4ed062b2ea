-- ===== src/FrameIntegrity/Positions.antt =====
-- pkg/sfu/buffer/frameintegrity.go, getPos: the place of a number in the ring, and its bit.
use voicekit.Prelude.{
  ℕ, ◌+◌, ◌-◌, ◌*◌, ◌/◌, ◌%◌, ◌≤◌, ◌<◌, true, false, length, ltb, if◌then◌else◌, ◌≡◌, sym, ap, ◌∙◌,
  arith, u64_mod, sub64,
}
use native.Mathlib.Decide.{dec_lt}
use native.Mathlib.Nat.{mod-add-mod, mod-eq_of_lt, mod-eq-sub-mod, mod-lt}
use voicekit.Prelude.Bits.{bit}
use voicekit.FrameIntegrity.{PacketHistory, word, position}
use voicekit.FrameIntegrity.Words.{wrap}
use voicekit.FrameIntegrity.Between.{AreWords}
use voicekit.FrameIntegrity.Ring.{IsMarked}

-- A history of at least two words
pub record IsRing (ph : PacketHistory) : Type 0 where
  pub counted : ph.packet_count ≡ length ph.bits * 64
  pub several : 2 ≤ length ph.bits
  pub are_words : AreWords ph.bits
  pub based : ph.base < u64_mod

-- The bit of a number
abbrev pub Has : PacketHistory → ℕ → Type 0
Has ph seq = bit (word ph (position ph seq / 64)) (position ph seq % 64) ≡ 1

-- `k` numbers on, the place in the ring is k further.
pub mod_further :
    (p k n : ℕ) → p < n → k < n → (p + k) % n ≡ (if ltb (p + k) n then p + k else p + k - n)
mod_further p k n h l = elim (dec_lt (p + k) n) [
  | yes m ↦ let e : ltb (p + k) n ≡ true = ground arith in rw e (mod-eq_of_lt m)
  | no m ↦
      let e : ltb (p + k) n ≡ false = ground arith in
      rw e (
        mod-eq-sub-mod {n = p + k} {m = n} (omega arith)
        ∙ mod-eq_of_lt {n = p + k - n} {m = n} (omega arith))
]

pub position_small :
    (ph : PacketHistory) (seq : ℕ) → IsRing ph → position ph seq < length ph.bits * 64
unfolding position
position_small ph seq r =
    let e = r.counted in let s = r.several in rw e (mod-lt (sub64 seq ph.base) (omega arith))

pub position_add :
    (ph : PacketHistory) (seq k : ℕ)
    → IsRing ph
    → ph.base ≤ seq
    → seq + k < u64_mod
    → position ph (seq + k) ≡ (position ph seq + k) % (length ph.bits * 64)
unfolding position
position_add ph seq k r h l =
    let e : sub64 (seq + k) ph.base ≡ seq - ph.base + k = omega arith in
    let f : sub64 seq ph.base ≡ seq - ph.base = omega arith in
    rw (e, f, r.counted) (sym (mod-add-mod (seq - ph.base) (length ph.bits * 64) k))

wrap_place : (len x : ℕ) → (if ltb x (len * 64) then x else x - len * 64) / 64 ≡ wrap len (x / 64)
wrap_place len x = ground arith

same_digit : (len x : ℕ) → (if ltb x (len * 64) then x else x - len * 64) % 64 ≡ x % 64
same_digit len x = ground arith

pub position_parts :
    (ph : PacketHistory) (seq k : ℕ)
    → IsRing ph
    → ph.base ≤ seq
    → seq + k < u64_mod
    → k < length ph.bits * 64
    → (position ph (seq + k) / 64 ≡ wrap (length ph.bits) ((position ph seq + k) / 64))
      × (position ph (seq + k) % 64 ≡ (position ph seq + k) % 64)
position_parts ph seq k r h l m =
    let e =
      position_add ph seq k r h l
      ∙ mod_further (position ph seq) k (length ph.bits * 64) (position_small ph seq r) m in
    (
      ap (λ x. x / 64) e ∙ wrap_place (length ph.bits) (position ph seq + k),
      ap (λ x. x % 64) e ∙ same_digit (length ph.bits) (position ph seq + k),
    )

-- The bit of a number k further
pub Has-IsMarked :
    (ph : PacketHistory) (seq k : ℕ)
    → IsRing ph
    → ph.base ≤ seq
    → seq + k < u64_mod
    → k < length ph.bits * 64
    → (Has ph (seq + k) → IsMarked ph.bits (position ph seq + k))
      × (IsMarked ph.bits (position ph seq + k) → Has ph (seq + k))
Has-IsMarked ph seq k r h l m =
    let e = position_parts ph seq k r h l m in rw (e.0, e.1) ((λ x. x), λ x. x)
