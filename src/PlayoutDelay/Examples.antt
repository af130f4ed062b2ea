-- ===== src/PlayoutDelay/Examples.antt =====
-- Runs of the playout delay, and the theorem at a concrete input
use voicekit.Prelude.{none, some, [], ◌∷◌, ◌≡◌, refl, ◌>>=◌}
use voicekit.PlayoutDelay.{PlayOutDelay, marshal, unmarshal, playout_delay_from_value}
use voicekit.PlayoutDelay.RoundTrip.{unmarshal-marshal}

abbrev delay : PlayOutDelay
delay = record { min = 123; max = 12345 }

written : marshal delay ≡ some (0 ∷ 196 ∷ 210 ∷ [])
unfolding marshal
written = refl

short : unmarshal (0 ∷ 196 ∷ []) ≡ none
unfolding unmarshal
short = refl

unmarshal-marshal_example : (marshal delay >>= unmarshal) ≡ some (record { min = 120; max = 12340 })
unmarshal-marshal_example = unmarshal-marshal delay

clamped : playout_delay_from_value 50000 7 ≡ record { min = 40950; max = 7 }
unfolding playout_delay_from_value
clamped = refl
