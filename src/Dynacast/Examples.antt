-- ===== src/Dynacast/Examples.antt =====
-- Concrete subscribers, and the theorems at concrete inputs. Quality 3 is off.
use voicekit.Prelude.{◌≡◌, ◌⊎◌, refl, arith, true, false, none, some, [], ◌∷◌}
use voicekit.Dynacast.{
  DynacastQuality, handled, delete, needed, highest, update_quality_change,
  notify_subscriber_max_quality, regress_to,
}
use voicekit.Dynacast.Regress.{IsNeeded, IsOn, update_quality_change-IsNeeded, needed-regress_to}

abbrev watched : DynacastQuality
watched = record {
  initialized = true;
  max_subscriber_quality = (7, 0) ∷ (8, 2) ∷ [];
  max_subscriber_node_quality = (1, 1) ∷ [];
  max_subscribed_quality = 2;
  timer_armed = false;
  regressed = false;
}

abbrev backup : DynacastQuality
backup = record (watched) { max_subscriber_quality = (8, 1) ∷ []; max_subscriber_node_quality = [] }

lowered :
    notify_subscriber_max_quality 3 watched 8 3
    ≡ handled
        (record (watched) { max_subscriber_quality = (7, 0) ∷ []; max_subscribed_quality = 1 })
        (some 1)
unfolding notify_subscriber_max_quality update_quality_change needed highest delete
lowered = refl

watched-IsOn : IsOn 3 watched.max_subscriber_quality × IsOn 3 watched.max_subscriber_node_quality
watched-IsOn = (omega arith, omega arith)

update_quality_change-IsNeeded_example :
    let (d', note) = update_quality_change 3 watched true in
    IsNeeded 3 d'.max_subscribed_quality (0 ∷ 2 ∷ 1 ∷ [])
    × ((note ≡ none) ⊎ (note ≡ some d'.max_subscribed_quality))
update_quality_change-IsNeeded_example =
    update_quality_change-IsNeeded 3 watched true watched-IsOn.0 watched-IsOn.1

needed-regress_to_example :
    let (d', other') = regress_to watched backup in
    (needed 3 other'.max_subscriber_quality other'.max_subscriber_node_quality
      ≡ needed 3 ((7, 0) ∷ (8, 2) ∷ (8, 1) ∷ []) ((1, 1) ∷ []))
    × (needed 3 d'.max_subscriber_quality d'.max_subscriber_node_quality ≡ 3)
needed-regress_to_example =
    needed-regress_to 3 watched backup watched-IsOn.0 watched-IsOn.1 (omega arith) tt
