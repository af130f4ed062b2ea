-- ===== src/Translation/Others.antt =====
-- pkg/sfu/forwarder.go: the other methods that change what packets are translated with, Restart,
-- SetRefSenderReport and GetPadding. Of a report's entry, the timestamp offset and whether it is valid
-- are left out: only GetSenderReportParams reads them. A report is not nil.
use voicekit.Prelude.{
  ℕ, Bool, false, not, Option, none, some, List, length, set, replicate, ltb, if◌then◌else◌,
}
use voicekit.Prelude.Int.{ℤ, pos, negsuc}
use voicekit.VideoLayer.{invalid, invalid_layer}
use voicekit.Forwarder.{resync, set_target_layer}
use voicekit.Translation.{SenderReport, Parts, Translator}

abbrev pub with_report : List (Option SenderReport) → ℤ → SenderReport → List (Option SenderReport)
with_report infos (negsuc n) report = infos
with_report infos (pos n) report = if ltb n (length infos) then set infos n (some report) else infos

module _ (P : Parts) where
  unfoldable pub restart : Translator P → Translator P
  restart t = record t {
    state = set_target_layer (resync t.state) invalid_layer invalid;
    reference_layer_spatial = invalid;
    last_payload_type = none;
    ref_infos = replicate (length t.ref_infos) none;
    last_switch_ts = 0;
    ref_is_svc = false;
  }

  unfoldable pub set_ref_sender_report : Translator P → Bool → ℤ → SenderReport → Translator P
  set_ref_sender_report t is_svc layer report = record t {
    ref_is_svc = is_svc;
    ref_infos = with_report t.ref_infos layer report;
  }

  -- With the header, where there is no error
  unfoldable pub get_padding : Translator P → Bool → Translator P × Option (List ℕ)
  get_padding t frame_end_needed =
      let (codec, bytes) = P.update_and_get_padding t.codec (not frame_end_needed) in
      (record t { codec = codec }, bytes)
