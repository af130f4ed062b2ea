-- ===== src/RtpMunger/Probes.antt =====
-- pkg/sfu/rtpmunger.go, UpdateAndGetPaddingSnTs: any request for padding, also one that is refused.
use voicekit.Prelude.{
  ℕ, zero, suc, ◌+◌, ◌<◌, Bool, false, ◌||◌, List, ◌∷◌, ◌++◌, map, ◌≡◌, refl, sym, ap, ◌∙◌,
  Bool-cases, inl, inr, arith, add64, u64_mod,
}
use mathlib.Core.Path.{subst}
use native.Mathlib.Decide.{ℕ_discrete}
use voicekit.RtpMunger.{RtpMunger, SnTs, update_and_get_padding_sn_ts}
use voicekit.RtpMunger.InOrder.{IsReady}
use voicekit.RtpMunger.Padding.{
  update_and_get_padding_sn_ts_numbers, update_and_get_padding_sn_ts_refused,
}
use voicekit.RtpMunger.Runs.{numbers_after}

-- The last of the n numbers after `last`
abbrev pub last_after : ℕ → ℕ → ℕ
last_after last zero = last
last_after last (suc n) = last_after (add64 last 1) n

pub numbers_after-++ :
    (k n last : ℕ)
    → numbers_after last k ++ numbers_after (last_after last k) n ≡ numbers_after last (k + n)
numbers_after-++ zero n last = let e : n ≡ 0 + n = omega arith in ap (numbers_after last) e
numbers_after-++ (suc k) n last =
    ap (λ l. add64 last 1 ∷ l) (numbers_after-++ k n (add64 last 1))
    ∙ (let e : suc (k + n) ≡ suc k + n = omega arith in ap (numbers_after last) e)

last_after-add64 : (n last : ℕ) → last < u64_mod → last_after last n ≡ add64 last n
last_after-add64 zero last h = omega arith
last_after-add64 (suc n) last h =
    let e : add64 (add64 last 1) n ≡ add64 last (suc n) = omega arith in
    last_after-add64 n (add64 last 1) (omega arith) ∙ e

-- A run of numbers after the last one, perhaps none
abbrev pub GivesOut : RtpMunger → RtpMunger → List SnTs → Type 0
GivesOut m m' vals =
    (k : ℕ) × (map (λ v. v.ext_sequence_number) vals ≡ numbers_after m.ext_last_sn k)
    × (m'.ext_last_sn ≡ last_after m.ext_last_sn k)
    × IsReady m'

-- What a request gives out, whether it is empty, refused or met
pub padding_numbers :
    (m : RtpMunger) (num clock_rate frame_rate : ℕ) (force_marker : Bool) (ts : ℕ)
    → IsReady m
    → num < u64_mod
    → let (m', vals, error) =
        update_and_get_padding_sn_ts m num clock_rate frame_rate force_marker ts in
      GivesOut m m' vals
unfolding update_and_get_padding_sn_ts
padding_numbers m num clock_rate frame_rate force_marker ts r h = elim (ℕ_discrete num 0) [
  | yes none_asked ↦ rw none_asked (zero, refl, refl, r)
  | no asked ↦ elim (Bool-cases (m.last_marker || force_marker)) [
    | inl allowed ↦
        let last = r.aligned in
        let (no_error, numbers, at_last, highest, marker, ready) =
          update_and_get_padding_sn_ts_numbers m num clock_rate frame_rate force_marker ts r
            (omega arith) h allowed in
        (num, numbers, at_last ∙ sym (last_after-add64 num m.ext_last_sn (omega arith)), ready)
    | inr refused ↦
        let open_frame : m.last_marker ≡ false = ground arith in
        let unforced : force_marker ≡ false = ground arith in
        let same =
          update_and_get_padding_sn_ts_refused m num clock_rate frame_rate ts (omega arith)
            open_frame in
        subst
          (λ f.
            let out = update_and_get_padding_sn_ts m num clock_rate frame_rate f ts in
            GivesOut m out.0 out.1)
          (sym unforced) (subst (λ out. GivesOut m out.0 out.1) (sym same) (zero, refl, refl, r))
  ]
]
