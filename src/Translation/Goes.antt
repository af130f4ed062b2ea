-- ===== src/Translation/Goes.antt =====
-- pkg/sfu/forwarder.go: a forwarder that runs goes on running when it is asked for padding, gets a report
-- of the sender or is restarted.
use voicekit.Prelude.{
  ℕ, ◌||◌, ◌+◌, ◌<◌, Bool, true, not, u64_mod, arith, sym, if◌then◌else◌, Option, none, some, List,
  ◌≡◌, refl, inl, inr, ltb, length, length-set, length-replicate, Bool-cases, ◌∙◌,
}
use mathlib.Core.Path.{subst}
use voicekit.Prelude.Int.{ℤ, pos, negsuc}
use voicekit.VideoLayer.{is_valid}
use voicekit.Translation.{Parts, Translator, SenderReport}
use voicekit.Translation.Others.{with_report, restart, set_ref_sender_report, get_padding}
use voicekit.RtpMunger.{SnTs, Error, update_and_get_padding_sn_ts}
use voicekit.RtpMunger.Probes.{GivesOut, padding_numbers}
use voicekit.Translation.Padding.{
  Draw, maybe_start, with_munger, later_than, or_last, get_sn_ts_for_padding,
  get_sn_ts_for_blank_frames,
}
use voicekit.Translation.Contiguous.{IsRunning}

if_true : {A : Type 0} {x : A} (b : Bool) (y : A) → b ≡ true → (if b then x else y) ≡ x
if_true b y e = rw e refl

maybe_start_started :
    (P : Parts) (t : Translator P) (draw : Draw) → t.started ≡ true → maybe_start P t draw ≡ t
unfolding maybe_start
maybe_start_started P t draw e = if_true t.started _ e

-- A translator that runs goes on running, and gives out the next numbers.
abbrev pub Pads : (P : Parts) → Translator P → Translator P × List SnTs × Option Error → Type 0
Pads P t (u, vals, error) = IsRunning P u × GivesOut t.munger u.munger vals

with_munger-Pads :
    (P : Parts) (t : Translator P) (num clock_rate frame_rate : ℕ) (force : Bool) (ts : ℕ)
    → IsRunning P t
    → num < u64_mod
    → Pads P t
        (with_munger P t (update_and_get_padding_sn_ts t.munger num clock_rate frame_rate force ts))
unfolding with_munger
with_munger-Pads P t num clock_rate frame_rate force ts r h =
    let gives = padding_numbers t.munger num clock_rate frame_rate force ts r.ready h in
    (
      record { started = r.started; ready = gives.3; reports = r.reports; layered = r.layered },
      gives,
    )

pub get_sn_ts_for_padding-Pads :
    (P : Parts) (t : Translator P) (draw : Draw) (num : ℕ) (force : Bool)
    → IsRunning P t
    → num + 1 < u64_mod
    → Pads P t (get_sn_ts_for_padding P t draw num force)
unfolding get_sn_ts_for_padding
get_sn_ts_for_padding-Pads P t draw num force r h =
    subst
      (λ (u : Translator P). Pads P t (
        with_munger P u (
          update_and_get_padding_sn_ts u.munger num 0 0
            (force || not (is_valid u.state.vls.target_layer)) 0)))
      (sym (maybe_start_started P t draw r.started))
      (with_munger-Pads P t num 0 0 (force || not (is_valid t.state.vls.target_layer)) 0 r
        (omega arith))

pub get_sn_ts_for_blank_frames-Pads :
    (P : Parts) (t : Translator P) (draw : Draw) (expected : Option ℕ) (rate num : ℕ)
    → IsRunning P t
    → num + 1 < u64_mod
    → Pads P t (get_sn_ts_for_blank_frames P t draw expected rate num).1
unfolding get_sn_ts_for_blank_frames
get_sn_ts_for_blank_frames-Pads P t draw expected rate num r h =
    subst
      (λ (u : Translator P). Pads P t (
        with_munger P u (
          update_and_get_padding_sn_ts u.munger (if not u.munger.last_marker then num + 1 else num)
            u.clock_rate rate (not u.munger.last_marker)
            (later_than P u.munger.ext_last_ts (or_last P u.munger.ext_last_ts expected)))))
      (sym (maybe_start_started P t draw r.started))
      (with_munger-Pads P t (if not t.munger.last_marker then num + 1 else num) t.clock_rate rate
        (not t.munger.last_marker)
        (later_than P t.munger.ext_last_ts (or_last P t.munger.ext_last_ts expected)) r
        (ground arith))

-- What goes on and keeps its numbers.
abbrev pub Keeps : (P : Parts) → Translator P → Translator P → Type 0
Keeps P t u = IsRunning P u × (u.munger.ext_last_sn ≡ t.munger.ext_last_sn)

pub get_padding-Keeps :
    (P : Parts) (t : Translator P) (b : Bool) → IsRunning P t → Keeps P t (get_padding P t b).0
unfolding get_padding
get_padding-Keeps P t b r = (
  record { started = r.started; ready = r.ready; reports = r.reports; layered = r.layered },
  refl,
)

length-with_report :
    (infos : List (Option SenderReport)) (layer : ℤ) (report : SenderReport)
    → length (with_report infos layer report) ≡ length infos
length-with_report infos (negsuc n) report = refl
length-with_report infos (pos n) report = elim (Bool-cases (ltb n (length infos))) [
  | inl low ↦ rw low (length-set infos n (some report))
  | inr high ↦ rw high refl
]

pub set_ref_sender_report-Keeps :
    (P : Parts) (t : Translator P) (is_svc : Bool) (layer : ℤ) (report : SenderReport)
    → IsRunning P t
    → Keeps P t (set_ref_sender_report P t is_svc layer report)
unfolding set_ref_sender_report
set_ref_sender_report-Keeps P t is_svc layer report r = (
  record {
    started = r.started;
    ready = r.ready;
    reports = length-with_report t.ref_infos layer report ∙ r.reports;
    layered = r.layered;
  },
  refl,
)

pub restart-Keeps : (P : Parts) (t : Translator P) → IsRunning P t → Keeps P t (restart P t)
unfolding restart
restart-Keeps P t r = (
  record {
    started = r.started;
    ready = r.ready;
    reports = length-replicate (length t.ref_infos) none ∙ r.reports;
    layered = refl;
  },
  refl,
)
