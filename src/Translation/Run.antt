-- ===== src/Translation/Run.antt =====
-- pkg/sfu/forwarder.go, GetTranslationParams: the outgoing numbers of a run of packets, between which the
-- state of the forwarder may change.
use voicekit.Prelude.{
  ℕ, ◌+◌, ◌<◌, Bool, true, false, not, ◌&&◌, ◌||◌, ltb, ◌==◌, if◌then◌else◌, ◌≡◌, refl, sym, ap,
  ◌∙◌, inl, inr, arith, Bool-cases,
}
use mathlib.Core.Path.{subst}
use voicekit.Prelude.Int.{ℤ, pos, ltb_ℤ}
use voicekit.VideoLayer.{is_valid}
use voicekit.RangeMap.{half_range}
use voicekit.LayerSelector.{SelectResult}
use voicekit.RtpMunger.{contiguous, gap}
use voicekit.RtpMunger.InOrder.{update_forwards}
use voicekit.RtpMunger.Runs.{dropped-IsReady}
use voicekit.Translation.{Packet, Parts, Translator}
use voicekit.Translation.Packets.{
  Params, no_params, dropped, from_source, translate, after_switch, get_translation_params_common,
  get_translation_params_audio, passed_over, pauses, selected_params, get_translation_params_video,
  get_translation_params,
}
use voicekit.Translation.Contiguous.{
  sent, TakesInOrder, IsRunning, IsNumbered, Numbers, translate_numbered,
}
use voicekit.Translation.Switch.{IsSwitched, process_source_switch-IsSwitched}

last_case :
    (a b c x y : Bool)
    → a ≡ false
    → b ≡ false
    → c ≡ true
    → (if a then false else if b then x else if not c then false else y) ≡ y
last_case a b c x y h k l = rw (h, k, l) refl

-- Whether the munger counts the packet on from the highest one: it is of the last stream, or it is passed
-- over and counted
unfoldable pub counts_on : (P : Parts) → Translator P → Packet → ℤ → Bool
counts_on P t pkt layer =
    let result = (P.select t.state.vls pkt layer).1 in
    if t.state.muted || t.state.pub_muted
    then false
    else if t.state.is_audio
    then t.state.last_ssrc == pkt.ssrc
    else if not (is_valid t.state.vls.target_layer)
    then false
    else if result.is_selected
    then t.state.last_ssrc == pkt.ssrc
    else result.is_relevant

-- A packet with a payload: where the munger counts it on, it is next to the highest one.
pub record IsInTurn (P : Parts) (IsGood : Packet → Type 0) (t : Translator P) (pkt : Packet)
    (layer : ℤ) : Type 0 where
  pub positive : 0 < pkt.rtp.ext_sequence_number
  pub room : pkt.rtp.ext_sequence_number + 1 < half_range
  pub payload : 0 < pkt.rtp.payload_size
  pub layered : ltb_ℤ layer (pos 3) ≡ true
  pub good : IsGood pkt
  pub sufficient : t.state.last_allocation.is_deficient ≡ false
  pub in_order :
      counts_on P t pkt layer ≡ true
      → pkt.rtp.ext_sequence_number ≡ t.munger.ext_highest_incoming_sn + 1

module _ (P : Parts) (IsGood : Packet → Type 0) (takes : TakesInOrder P IsGood) where
  after_switch_numbered :
      (t u : Translator P) (pkt : Packet) (tp : Params) (b : Bool)
      → IsSwitched P t pkt (u, b)
      → IsGood pkt
      → (tp.should_drop ≡ false) × (tp.has_error ≡ false)
      → pkt.rtp.ext_sequence_number + 1 < half_range
      → 0 < pkt.rtp.payload_size
      → Numbers P t.munger.ext_last_sn
          (t.state.last_allocation.is_deficient)
          (after_switch P u pkt tp b)
  unfolding after_switch from_source sent
  after_switch_numbered t u pkt tp true s good kept room payload =
      let r = s.running in
      let next =
        translate_numbered P IsGood takes (from_source P u pkt) pkt tp
          (record {
            started = r.started;
            ready = r.ready;
            reports = r.reports;
            layered = r.layered;
          })
          good kept (s.next refl) room payload in
      subst
        (λ n.
          Numbers P n (t.state.last_allocation.is_deficient)
            (translate P (from_source P u pkt) pkt tp))
        s.last
        (subst (λ d. Numbers P u.munger.ext_last_sn d (translate P (from_source P u pkt) pkt tp))
          s.allocation next)
  after_switch_numbered t u pkt tp false s good kept room payload =
      let r = s.running in
      (
        _,
        refl,
        record {
          running = record {
            started = r.started;
            ready = r.ready;
            reports = r.reports;
            layered = r.layered;
          };
          allocation = s.allocation;
          accepted = kept.1;
          numbered = inr (refl, s.last);
        },
      )

  common_numbered :
      (t : Translator P) (pkt : Packet) (layer : ℤ) (tp : Params)
      → IsRunning P t
      → IsGood pkt
      → (tp.should_drop ≡ false) × (tp.has_error ≡ false)
      → 0 < pkt.rtp.ext_sequence_number
      → pkt.rtp.ext_sequence_number + 1 < half_range
      → 0 < pkt.rtp.payload_size
      → ltb_ℤ layer (pos 3) ≡ true
      → ((t.state.last_ssrc == pkt.ssrc) ≡ true
          → pkt.rtp.ext_sequence_number ≡ t.munger.ext_highest_incoming_sn + 1)
      → Numbers P t.munger.ext_last_sn
          (t.state.last_allocation.is_deficient)
          (get_translation_params_common P t pkt layer tp)
  unfolding get_translation_params_common
  common_numbered t pkt layer tp r good kept positive room payload layered in_order =
      elim (Bool-cases (t.state.last_ssrc == pkt.ssrc)) [
        | inl same ↦
            rw same
              (translate_numbered P IsGood takes t pkt tp r good kept (in_order same) room payload)
        | inr other ↦
            let (out, e, s) =
              process_source_switch-IsSwitched P t pkt layer r positive room layered in
            rw (other, e) (after_switch_numbered t out.0 pkt tp out.1 s good kept room payload)
      ]

  -- A packet that is not selected
  passed_over-IsNumbered :
      (t : Translator P) (pkt : Packet) (result : SelectResult)
      → IsRunning P t
      → pkt.rtp.ext_sequence_number + 1 < half_range
      → 0 < pkt.rtp.payload_size
      → (result.is_relevant ≡ true
          → pkt.rtp.ext_sequence_number ≡ t.munger.ext_highest_incoming_sn + 1)
      → IsNumbered P t.munger.ext_last_sn
          (t.state.last_allocation.is_deficient)
          (passed_over P t pkt result, dropped no_params)
  unfolding passed_over sent
  passed_over-IsNumbered t pkt result r room payload in_order =
      elim (Bool-cases result.is_relevant) [
        | inr irrelevant ↦
            let e : (t.started && result.is_relevant) ≡ false = ground arith in
            rw e (record {
              running = r;
              allocation = refl;
              accepted = refl;
              numbered = inr (refl, refl);
            })
        | inl relevant ↦
            let e : (t.started && result.is_relevant) ≡ true =
              let started = r.started in ground arith in
            let next = in_order relevant in
            let (state, no_error, number, time, order) =
              update_forwards t.munger pkt.rtp result.rtp_marker (omega arith) (omega arith)
                (inl payload) in
            let test : ltb (t.munger.ext_highest_incoming_sn + 1) pkt.rtp.ext_sequence_number
                ≡ false =
              ground arith in
            let in_turn = order ∙ ap (λ b. if b then gap else contiguous) test in
            let back =
              dropped-IsReady t.munger pkt.rtp result.rtp_marker r.ready next room payload in
            rw (e, no_error, in_turn)
              (record {
                running = record {
                  started = r.started;
                  ready = back.2;
                  reports = r.reports;
                  layered = r.layered;
                };
                allocation = refl;
                accepted = refl;
                numbered = inr (refl, back.0);
              })
      ]

  -- The last step of a video packet, where the allocation is not deficient
  pub not_paused :
      (last : ℕ) (out : Translator P × Params)
      → IsNumbered P last false out
      → (if not out.1.should_drop && pauses P out.0 then dropped out.1 else out.1) ≡ out.1
  unfolding pauses
  not_paused last out n =
      let e : (not out.1.should_drop && pauses P out.0) ≡ false = rw n.allocation (ground arith) in
      rw e refl

  counts_on_video :
      (t : Translator P) (pkt : Packet) (layer : ℤ)
      → (t.state.muted || t.state.pub_muted) ≡ false
      → t.state.is_audio ≡ false
      → is_valid t.state.vls.target_layer ≡ true
      → let result = (P.select t.state.vls pkt layer).1 in
        counts_on P t pkt layer
        ≡ (if result.is_selected then t.state.last_ssrc == pkt.ssrc else result.is_relevant)
  unfolding counts_on
  counts_on_video t pkt layer heard video valid =
      last_case (t.state.muted || t.state.pub_muted) t.state.is_audio
        (is_valid t.state.vls.target_layer) _ _ heard video valid

  video_numbered :
      (t : Translator P) (pkt : Packet) (layer : ℤ)
      → IsRunning P t
      → IsInTurn P IsGood t pkt layer
      → (t.state.muted || t.state.pub_muted) ≡ false
      → t.state.is_audio ≡ false
      → Numbers P t.munger.ext_last_sn false (get_translation_params_video P t pkt layer)
  unfolding get_translation_params_video selected_params sent passed_over
  video_numbered t pkt layer r turn heard video =
      elim (Bool-cases (is_valid t.state.vls.target_layer)) [
        | inr paused ↦ rw paused (
          _,
          refl,
          record {
            running = r;
            allocation = turn.sufficient;
            accepted = refl;
            numbered = inr (refl, refl);
          },
        )
        | inl valid ↦
            let (vls, result) = P.select t.state.vls pkt layer in
            let s : Translator P = record t { state = record (t.state) { vls = vls } } in
            let running : IsRunning P s = record {
              started = r.started;
              ready = r.ready;
              reports = r.reports;
              layered = r.layered;
            } in
            elim (Bool-cases result.is_selected) [
              | inr unselected ↦
                  rw (valid, unselected)
                    (
                      _,
                      refl,
                      subst
                          (λ d.
                            IsNumbered P t.munger.ext_last_sn d
                              (passed_over P s pkt result, dropped no_params))
                          turn.sufficient
                          (passed_over-IsNumbered s pkt result running turn.room turn.payload (λ e.
                            turn.in_order (
                              counts_on_video t pkt layer heard video valid
                              ∙ ap
                                  (λ b.
                                    if b then t.state.last_ssrc == pkt.ssrc else result.is_relevant)
                                  unselected
                              ∙ e))),
                    )
              | inl selected ↦
                  let (out, e, n) =
                    common_numbered s pkt layer (selected_params P result) running turn.good
                      (refl, refl) turn.positive turn.room turn.payload turn.layered
                      (λ e. turn.in_order (
                        counts_on_video t pkt layer heard video valid
                        ∙ ap (λ b. if b then t.state.last_ssrc == pkt.ssrc else result.is_relevant)
                            selected
                        ∙ e)) in
                  let numbered =
                    subst (λ d. IsNumbered P t.munger.ext_last_sn d out) turn.sufficient n in
                  rw (valid, selected, e, not_paused t.munger.ext_last_sn out numbered)
                    (out, refl, numbered)
            ]
      ]

  audio_numbered :
      (t : Translator P) (pkt : Packet) (layer : ℤ)
      → IsRunning P t
      → IsInTurn P IsGood t pkt layer
      → (t.state.muted || t.state.pub_muted) ≡ false
      → t.state.is_audio ≡ true
      → Numbers P t.munger.ext_last_sn false (get_translation_params_audio P t pkt layer)
  unfolding get_translation_params_audio counts_on sent
  audio_numbered t pkt layer r turn heard audio =
      let (out, e, n) =
        common_numbered t pkt layer no_params r turn.good (refl, refl) turn.positive turn.room
          turn.payload turn.layered (λ e. turn.in_order (rw (heard, audio) e)) in
      let m = subst (λ d. IsNumbered P t.munger.ext_last_sn d out) turn.sufficient n in
      rw (e, m.accepted) (out, refl, m)

  pub get_translation_params_numbered :
      (t : Translator P) (pkt : Packet) (layer : ℤ)
      → IsRunning P t
      → IsInTurn P IsGood t pkt layer
      → Numbers P t.munger.ext_last_sn false (get_translation_params P t pkt layer)
  unfolding get_translation_params sent
  get_translation_params_numbered t pkt layer r turn =
      elim (Bool-cases (t.state.muted || t.state.pub_muted)) [
        | inl muted ↦ rw muted (
          _,
          refl,
          record {
            running = r;
            allocation = turn.sufficient;
            accepted = refl;
            numbered = inr (refl, refl);
          },
        )
        | inr heard ↦ elim (Bool-cases t.state.is_audio) [
          | inl audio ↦
              let n = audio_numbered t pkt layer r turn heard audio in
              rw heard (
                subst
                  (λ b. Numbers P t.munger.ext_last_sn false (
                    if b
                    then get_translation_params_audio P t pkt layer
                    else get_translation_params_video P t pkt layer))
                  (sym audio) n)
          | inr video ↦
              let n = video_numbered t pkt layer r turn heard video in
              rw heard (
                subst
                  (λ b. Numbers P t.munger.ext_last_sn false (
                    if b
                    then get_translation_params_audio P t pkt layer
                    else get_translation_params_video P t pkt layer))
                  (sym video) n)
        ]
      ]
