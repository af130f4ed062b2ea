-- ===== src/Translation/Events.antt =====
-- pkg/sfu/forwarder.go, GetTranslationParams: a run of packets, between which other methods change the
-- state of the forwarder.
use voicekit.Prelude.{
  ℕ, zero, suc, ◌+◌, ◌<◌, Bool, map, ◌++◌, u64_mod, Option, none, some, List, [], ◌∷◌, ◌≡◌, refl,
  ap, ◌>>=◌, ◌⊎◌, inl, inr, add64, ◌∙◌,
}
use mathlib.Core.Path.{subst}
use voicekit.Prelude.Int.{ℤ}
use voicekit.Forwarder.{State}
use voicekit.RtpMunger.Runs.{numbers_after}
use voicekit.Translation.{Packet, Parts, Translator, SenderReport}
use voicekit.Translation.Others.{restart, set_ref_sender_report, get_padding}
use voicekit.RtpMunger.{RtpMunger, SnTs}
use voicekit.RtpMunger.Probes.{GivesOut, numbers_after-++}
use voicekit.Translation.Padding.{Draw, get_sn_ts_for_padding, get_sn_ts_for_blank_frames}
use voicekit.Translation.Goes.{
  get_sn_ts_for_padding-Pads, get_sn_ts_for_blank_frames-Pads, get_padding-Keeps,
  set_ref_sender_report-Keeps, restart-Keeps,
}
use voicekit.Translation.Packets.{Params, get_translation_params}
use voicekit.Translation.Contiguous.{sent, TakesInOrder, IsRunning}
use voicekit.Translation.Run.{IsInTurn, get_translation_params_numbered}

-- A packet with its spatial layer, a request for padding, for blank frames or for the codec's header of
-- a padding packet, a report of the sender, a restart, or a new state of the layers from another method
pub data Event : Type 0 where
  arrives : Packet → ℤ → Event
  pads : Draw → ℕ → Bool → Event
  blanks : Draw → Option ℕ → ℕ → ℕ → Event
  gets_padding : Bool → Event
  reports : Bool → ℤ → SenderReport → Event
  restarts : Event
  changes : State → Event

abbrev pub with_sent : Option ℕ → List ℕ → List ℕ
with_sent none sns = sns
with_sent (some sn) sns = sn ∷ sns

abbrev pub numbers_of : List SnTs → List ℕ
numbers_of vals = map (λ v. v.ext_sequence_number) vals

-- The outgoing numbers of the packets that are sent, and of the padding
unfoldable pub forward_all : (P : Parts) → Translator P → List Event → Option (List ℕ)
forward_all P t [] = some []
forward_all P t (changes s ∷ events) = forward_all P (record t { state = s }) events
forward_all P t (gets_padding frame_end_needed ∷ events) =
    forward_all P (get_padding P t frame_end_needed).0 events
forward_all P t (reports is_svc layer report ∷ events) =
    forward_all P (set_ref_sender_report P t is_svc layer report) events
forward_all P t (restarts ∷ events) = forward_all P (restart P t) events
forward_all P t (pads draw num force ∷ events) =
    let (u, vals, error) = get_sn_ts_for_padding P t draw num force in
    do sns ← forward_all P u events; some (numbers_of vals ++ sns)
forward_all P t (blanks draw expected rate num ∷ events) =
    let (needed, (u, vals, error)) = get_sn_ts_for_blank_frames P t draw expected rate num in
    do sns ← forward_all P u events; some (numbers_of vals ++ sns)
forward_all P t (arrives pkt layer ∷ events) = do
  (u, tp) ← get_translation_params P t pkt layer
  sns ← forward_all P u events
  some (with_sent (sent tp) sns)

abbrev pub After : {P : Parts} → (Translator P → Type 0) → Option (Translator P × Params) → Type 0
After Q none = Unit {0}
After Q (some (t, tp)) = Q t

-- Each packet is in turn when it arrives.
unfoldable pub AreInTurn : (P : Parts) → (Packet → Type 0) → Translator P → List Event → Type 0
AreInTurn P IsGood t [] = Unit {0}
AreInTurn P IsGood t (changes s ∷ events) = AreInTurn P IsGood (record t { state = s }) events
AreInTurn P IsGood t (gets_padding frame_end_needed ∷ events) =
    AreInTurn P IsGood (get_padding P t frame_end_needed).0 events
AreInTurn P IsGood t (reports is_svc layer report ∷ events) =
    AreInTurn P IsGood (set_ref_sender_report P t is_svc layer report) events
AreInTurn P IsGood t (restarts ∷ events) = AreInTurn P IsGood (restart P t) events
AreInTurn P IsGood t (pads draw num force ∷ events) =
    (num + 1 < u64_mod) × AreInTurn P IsGood (get_sn_ts_for_padding P t draw num force).0 events
AreInTurn P IsGood t (blanks draw expected rate num ∷ events) =
    (num + 1 < u64_mod)
    × AreInTurn P IsGood (get_sn_ts_for_blank_frames P t draw expected rate num).1.0 events
AreInTurn P IsGood t (arrives pkt layer ∷ events) =
    IsInTurn P IsGood t pkt layer
    × After {P = P} (λ u. AreInTurn P IsGood u events) (get_translation_params P t pkt layer)

-- The list starts with the next number or leaves it.
with_sent-numbers_after :
    (n last last' : ℕ) (number : Option ℕ)
    → ((number ≡ some (add64 last 1)) × (last' ≡ add64 last 1)) ⊎ ((number ≡ none) × (last' ≡ last))
    → (m : ℕ) × (with_sent number (numbers_after last' n) ≡ numbers_after last m)
with_sent-numbers_after n last last' number (inl (e, f)) = rw (e, f) (suc n, refl)
with_sent-numbers_after n last last' number (inr (e, f)) = rw (e, f) (n, refl)

-- A run of numbers, and what follows them
padded-numbers_after :
    (m m' : RtpMunger) (vals : List SnTs) (n : ℕ) (rest : Option (List ℕ))
    → GivesOut m m' vals
    → rest ≡ some (numbers_after m'.ext_last_sn n)
    → (j : ℕ) × ((rest >>= (λ sns. some (numbers_of vals ++ sns)))
        ≡ some (numbers_after m.ext_last_sn j))
padded-numbers_after m m' vals n rest (k, numbers, last, ready) e =
    rw (e, numbers, last) (k + n, ap some (numbers_after-++ k n m.ext_last_sn))

-- A codec munger takes each good packet in order, by rewriting its header or by filtering it. A
-- forwarder that has started, whose munger is ready and whose reference layer is below 3, handles a run
-- of packets, which come from any streams. Between them it is asked for padding and for blank frames,
-- less than 2 ^ 64 at a time, and for the codec's header of a padding packet, gets reports of the
-- sender, is restarted, and any other methods set its record of layers, allocation, mutes and last
-- source anew; neither its codec is determined nor its saved state is seeded between them. Each packet
-- has a payload, a spatial layer below 3 and a number far from the end of 64 bits, comes while the
-- allocation is not deficient and, where the munger counts it on, is next to the highest one. Then
-- nothing panics, and what is sent, packets and padding, has contiguous outgoing numbers after the last.
pub forward_all-numbers_after :
    (P : Parts) (IsGood : Packet → Type 0)
    → TakesInOrder P IsGood
    → (events : List Event) (t : Translator P) → IsRunning P t
    → AreInTurn P IsGood t events
    → (n : ℕ) × (forward_all P t events ≡ some (numbers_after t.munger.ext_last_sn n))
unfolding forward_all AreInTurn
forward_all-numbers_after P IsGood takes [] t r turns = (zero, refl)
forward_all-numbers_after P IsGood takes (changes s ∷ events) t r turns =
    forward_all-numbers_after P IsGood takes events (record t { state = s })
      (record { started = r.started; ready = r.ready; reports = r.reports; layered = r.layered })
      turns
forward_all-numbers_after P IsGood takes (gets_padding b ∷ events) t r turns =
    let u = (get_padding P t b).0 in
    let (running, same) = get_padding-Keeps P t b r in
    let (n, rest) = forward_all-numbers_after P IsGood takes events u running turns in
    (n, rest ∙ ap (λ last. some (numbers_after last n)) same)
forward_all-numbers_after P IsGood takes (reports is_svc layer report ∷ events) t r turns =
    let u = set_ref_sender_report P t is_svc layer report in
    let (running, same) = set_ref_sender_report-Keeps P t is_svc layer report r in
    let (n, rest) = forward_all-numbers_after P IsGood takes events u running turns in
    (n, rest ∙ ap (λ last. some (numbers_after last n)) same)
forward_all-numbers_after P IsGood takes (restarts ∷ events) t r turns =
    let (running, same) = restart-Keeps P t r in
    let (n, rest) = forward_all-numbers_after P IsGood takes events (restart P t) running turns in
    (n, rest ∙ ap (λ last. some (numbers_after last n)) same)
forward_all-numbers_after P IsGood takes (pads draw num force ∷ events) t r turns =
    let (running, gives) = get_sn_ts_for_padding-Pads P t draw num force r turns.0 in
    let (u, vals, error) = get_sn_ts_for_padding P t draw num force in
    let (n, rest) = forward_all-numbers_after P IsGood takes events u running turns.1 in
    padded-numbers_after t.munger u.munger vals n (forward_all P u events) gives rest
forward_all-numbers_after P IsGood takes (blanks draw expected rate num ∷ events) t r turns =
    let (running, gives) = get_sn_ts_for_blank_frames-Pads P t draw expected rate num r turns.0 in
    let (u, vals, error) = (get_sn_ts_for_blank_frames P t draw expected rate num).1 in
    let (n, rest) = forward_all-numbers_after P IsGood takes events u running turns.1 in
    padded-numbers_after t.munger u.munger vals n (forward_all P u events) gives rest
forward_all-numbers_after P IsGood takes (arrives pkt layer ∷ events) t r turns =
    let (out, e, numbered) = get_translation_params_numbered P IsGood takes t pkt layer r turns.0 in
    let later = subst (After {P = P} (λ u. AreInTurn P IsGood u events)) e turns.1 in
    let (n, rest) = forward_all-numbers_after P IsGood takes events out.0 numbered.running later in
    let (m, same) =
      with_sent-numbers_after n t.munger.ext_last_sn out.0.munger.ext_last_sn (sent out.1)
        numbered.numbered in
    rw (e, rest) (m, ap some same)
