-- ===== src/Translation/Switch.antt =====
-- pkg/sfu/forwarder.go, processSourceSwitch: it does not panic, and the first packet of a new stream goes
-- on where the last one stopped.
use voicekit.Prelude.{
  ℕ, ◌+◌, ◌<◌, ◌^◌, Bool, true, false, not, ◌||◌, Option, none, some, List, length, ltb, ◌==◌,
  get_elem?-lt, ◌≡◌, refl, if_either, ap, ◌∙◌, arith, sub64, u64_mod, is_negative64, Bool-cases,
  inl, inr,
}
use mathlib.Core.Path.{subst}
use voicekit.Prelude.Int.{ℤ, pos, negsuc, ltb_ℤ, eqb_ℤ}
use voicekit.VideoLayer.{invalid}
use voicekit.Forwarder.{State}
use voicekit.RangeMap.{half_range}
use voicekit.RtpMunger.{update_sn_ts_offsets}
use voicekit.RtpMunger.Switched.{update_sn_ts_offsets-IsReady}
use voicekit.Translation.{SenderReport, Packet, Parts, Translator}
use voicekit.Translation.Timestamp.{
  Estimate, RefTs, ref_ts, no_ref_ts, ref_panics, index_of, has_ntp, between_reports, at_reports,
  at_layers, get_ref_layer_rtp_timestamp, past_last, switched, resumed,
}
use voicekit.Translation.Packets.{
  switch_to_ts, switch_or_not, switch_by, switch_from, catch_up, reference, process_source_switch,
}
use voicekit.Translation.Contiguous.{IsRunning}

abbrev pub has_answer : RefTs → Bool
has_answer (ref_ts ts) = true
has_answer no_ref_ts = true
has_answer ref_panics = false

abbrev pub InReports : List (Option SenderReport) → Option ℕ → Type 0
InReports infos none = Unit {0}
InReports infos (some i) = i < length infos

index_of-InReports :
    (infos : List (Option SenderReport)) (layer : ℤ)
    → length infos ≡ 3
    → ltb_ℤ layer (pos 3) ≡ true
    → InReports infos (index_of infos layer)
unfolding index_of
index_of-InReports infos (negsuc n) e h = tt
index_of-InReports infos (pos n) e h =
    let low : n < 3 = ground arith in
    let f : ltb (length infos) n ≡ false = ground arith in rw f (omega arith)

module _ (P : Parts) where
  between_reports-has_answer :
      (clock_rate ts : ℕ) (ref target : Option SenderReport)
      → has_answer (between_reports P clock_rate ts ref target) ≡ true
  unfolding between_reports
  between_reports-has_answer clock_rate ts none target = refl
  between_reports-has_answer clock_rate ts (some ref) none = refl
  between_reports-has_answer clock_rate ts (some ref) (some target) = refl

  at_layers-has_answer :
      (t : Translator P) (ts : ℕ) (ref target : Option ℕ) (same : Bool)
      → InReports t.ref_infos ref
      → InReports t.ref_infos target
      → has_answer (at_layers P t ts ref target same) ≡ true
  unfolding at_layers at_reports
  at_layers-has_answer t ts none target same h k = refl
  at_layers-has_answer t ts (some ref) none same h k = refl
  at_layers-has_answer t ts (some ref) (some target) same h k =
      elim (Bool-cases (same || t.ref_is_svc)) [
        | inl e ↦ rw e refl
        | inr e ↦
            let a = get_elem?-lt t.ref_infos ref h in
            let b = get_elem?-lt t.ref_infos target k in
            rw (e, a.1, b.1)
              (between_reports-has_answer t.clock_rate ts (has_ntp a.0) (has_ntp b.0))
      ]

  reference-has_answer :
      (t : Translator P) (pkt : Packet) (layer : ℤ)
      → IsRunning P t
      → ltb_ℤ layer (pos 3) ≡ true
      → has_answer (reference P t pkt layer) ≡ true
  unfolding reference get_ref_layer_rtp_timestamp at_layers
  reference-has_answer t pkt layer r h = elim (Bool-cases t.skip_reference_ts) [
    | inl e ↦ rw e refl
    | inr e ↦ rw e (
        at_layers-has_answer t pkt.timestamp (index_of t.ref_infos t.reference_layer_spatial)
          (index_of t.ref_infos layer) (eqb_ℤ t.reference_layer_spatial layer)
          (index_of-InReports t.ref_infos t.reference_layer_spatial r.reports r.layered)
          (index_of-InReports t.ref_infos layer r.reports h))
  ]

  past_last-ahead :
      (last next : ℕ)
      → last < u64_mod
      → (0 < sub64 (past_last P last next) last) × (sub64 (past_last P last next) last < 2 ^ 63)
  unfolding past_last
  past_last-ahead last next word =
      elim (Bool-cases (sub64 next last == 0 || is_negative64 (sub64 next last))) [
        | inl behind ↦ rw behind (omega arith, omega arith)
        | inr ahead ↦ rw ahead (ground arith, ground arith)
      ]

  -- After the attempt to switch, with the last number and the packet's one
  pub record IsSwitched (t : Translator P) (pkt : Packet) (out : Translator P × Bool) : Type 0 where
    pub running : IsRunning P out.0
    pub allocation : out.0.state.last_allocation.is_deficient ≡ t.state.last_allocation.is_deficient
    pub last : out.0.munger.ext_last_sn ≡ t.munger.ext_last_sn
    pub moved :
        out.1 ≡ true
        → t.munger.ext_last_ts < u64_mod
        → (a : ℕ) × (0 < a)
          × (a < 2 ^ 63)
          × (out.0.munger ≡ update_sn_ts_offsets t.munger pkt.rtp 1 a)
    pub next : out.1 ≡ true → pkt.rtp.ext_sequence_number ≡ out.0.munger.ext_highest_incoming_sn + 1

  abbrev pub Switches : Translator P → Packet → Option (Translator P × Bool) → Type 0
  Switches t pkt result = (out : Translator P × Bool) × (result ≡ some out) × IsSwitched t pkt out

  switch_to_ts-IsSwitched :
      (t : Translator P) (pkt : Packet) (next : ℕ)
      → IsRunning P t
      → 0 < pkt.rtp.ext_sequence_number
      → pkt.rtp.ext_sequence_number + 1 < half_range
      → IsSwitched t pkt (switch_to_ts P t pkt t.munger.ext_last_ts next, true)
  unfolding switch_to_ts
  switch_to_ts-IsSwitched t pkt next r positive room =
      let (same, follows, ready) =
        update_sn_ts_offsets-IsReady t.munger pkt.rtp
          (sub64 (past_last P t.munger.ext_last_ts next) t.munger.ext_last_ts) r.ready positive
          room in
      record {
        running = record {
          started = r.started;
          ready = ready;
          reports = r.reports;
          layered = r.layered;
        };
        allocation = refl;
        last = same;
        moved = λ e word.
            let (up, down) = past_last-ahead t.munger.ext_last_ts next word in (_, up, down, refl);
        next = λ e. follows;
      }

  failed-IsSwitched :
      (t : Translator P) (pkt : Packet) → IsRunning P t → IsSwitched t pkt (t, false)
  failed-IsSwitched t pkt r = record {
    running = r;
    allocation = refl;
    last = refl;
    moved = λ e. absurd cc;
    next = λ e. absurd cc;
  }

  switch_or_not-IsSwitched :
      (t : Translator P) (pkt : Packet) (next : Option ℕ)
      → IsRunning P t
      → 0 < pkt.rtp.ext_sequence_number
      → pkt.rtp.ext_sequence_number + 1 < half_range
      → IsSwitched t pkt (switch_or_not P t pkt t.munger.ext_last_ts next)
  unfolding switch_or_not
  switch_or_not-IsSwitched t pkt none r positive room = failed-IsSwitched t pkt r
  switch_or_not-IsSwitched t pkt (some next) r positive room =
      switch_to_ts-IsSwitched t pkt next r positive room

  IsSwitched-like :
      {pkt : Packet} (t u : Translator P) (out : Translator P × Bool)
      → u.state.last_allocation.is_deficient ≡ t.state.last_allocation.is_deficient
      → u.munger ≡ t.munger
      → IsSwitched u pkt out
      → IsSwitched t pkt out
  IsSwitched-like {pkt = pkt} t u out d e s = record {
    running = s.running;
    allocation = s.allocation ∙ d;
    last = s.last ∙ ap (λ m. m.ext_last_sn) e;
    moved =
        subst
          (λ m.
            out.1 ≡ true
            → m.ext_last_ts < u64_mod
            → (a : ℕ) × (0 < a)
              × (a < 2 ^ 63)
              × (out.0.munger ≡ update_sn_ts_offsets m pkt.rtp 1 a))
          e s.moved;
    next = s.next;
  }

  with_state :
      (t : Translator P) (s : State) (dummy : ℕ)
      → IsRunning P t
      → IsRunning P (record t { state = s; dummy_start_ts_offset = dummy })
  with_state t s dummy r = record {
    started = r.started;
    ready = r.ready;
    reports = r.reports;
    layered = r.layered;
  }

  switch_by-IsSwitched :
      (t : Translator P) (pkt : Packet) (e : Estimate P)
      → IsRunning P t
      → 0 < pkt.rtp.ext_sequence_number
      → pkt.rtp.ext_sequence_number + 1 < half_range
      → IsSwitched t pkt (switch_by P t pkt t.munger.ext_last_ts e)
  unfolding switch_by
  switch_by-IsSwitched t pkt e r positive room =
      let u : Translator P = record t { dummy_start_ts_offset = e.dummy } in
      let v : Translator P = record u {
        state = record (t.state) { resume_behind_threshold = 0 };
      } in
      if_either (IsSwitched t pkt) (t.state.last_ssrc == 0)
        (IsSwitched-like t v (switch_to_ts P v pkt t.munger.ext_last_ts (resumed P t e), true) refl
          refl
          (switch_to_ts-IsSwitched v pkt (resumed P t e) (with_state t v.state e.dummy r) positive
            room))
        (IsSwitched-like t u
          (switch_or_not P u pkt t.munger.ext_last_ts (switched P t e t.munger.ext_last_ts)) refl
          refl
          (switch_or_not-IsSwitched u pkt (switched P t e t.munger.ext_last_ts)
            (with_state t t.state e.dummy r) positive room))

  switch_from-IsSwitched :
      (t : Translator P) (pkt : Packet) (ref : RefTs)
      → IsRunning P t
      → 0 < pkt.rtp.ext_sequence_number
      → pkt.rtp.ext_sequence_number + 1 < half_range
      → has_answer ref ≡ true
      → Switches t pkt (switch_from P t pkt ref)
  unfolding switch_from
  switch_from-IsSwitched t pkt (ref_ts ts) r positive room h =
      (_, refl, switch_by-IsSwitched t pkt _ r positive room)
  switch_from-IsSwitched t pkt no_ref_ts r positive room h = (_, refl, failed-IsSwitched t pkt r)
  switch_from-IsSwitched t pkt ref_panics r positive room h = absurd cc

  catch_up-IsRunning :
      (t : Translator P) (pkt : Packet) (layer : ℤ)
      → IsRunning P t
      → ltb_ℤ layer (pos 3) ≡ true
      → IsRunning P (catch_up P t pkt layer)
        × ((catch_up P t pkt layer).state ≡ t.state)
        × ((catch_up P t pkt layer).munger ≡ t.munger)
  unfolding catch_up
  catch_up-IsRunning t pkt layer r h =
      if_either (λ (u : Translator P). IsRunning P u × (u.state ≡ t.state) × (u.munger ≡ t.munger))
        (eqb_ℤ t.reference_layer_spatial invalid)
        (
          record { started = r.started; ready = r.ready; reports = r.reports; layered = h },
          refl,
          refl,
        )
        (r, refl, refl)

  pub process_source_switch-IsSwitched :
      (t : Translator P) (pkt : Packet) (layer : ℤ)
      → IsRunning P t
      → 0 < pkt.rtp.ext_sequence_number
      → pkt.rtp.ext_sequence_number + 1 < half_range
      → ltb_ℤ layer (pos 3) ≡ true
      → Switches t pkt (process_source_switch P t pkt layer)
  unfolding process_source_switch
  process_source_switch-IsSwitched t pkt layer r positive room h =
      let e : not t.started ≡ false = ap not r.started in
      let u = catch_up P t pkt layer in
      let (running, state, munger) = catch_up-IsRunning t pkt layer r h in
      let out =
        switch_from-IsSwitched u pkt (reference P u pkt layer) running positive room
          (reference-has_answer u pkt layer running h) in
      rw e (
        out.0,
        out.1,
        IsSwitched-like t u out.0 (ap (λ s. s.last_allocation.is_deficient) state) munger out.2,
      )
