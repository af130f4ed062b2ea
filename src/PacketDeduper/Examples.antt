-- ===== src/PacketDeduper/Examples.antt =====
-- Tests of the deduper, and the theorem at a concrete input.
use voicekit.Prelude.{ℕ, true, false, Option, none, some, List, [], ◌∷◌, ◌≡◌, refl}
use voicekit.PacketDeduper.{
  answers, new_user_packet_deduper, is_duplicate, is_duplicate_id, forget, has, put,
}
use voicekit.PacketDeduper.Queue.{queue_answers}
use voicekit.PacketDeduper.Recent.{answers-queue_answers}

-- An identifier of one byte
abbrev one_byte : List ℕ → Option ℕ
one_byte (b ∷ []) = some b
one_byte _ = none

abbrev nonces : List (List ℕ)
nonces = (7 ∷ []) ∷ (8 ∷ []) ∷ (7 ∷ []) ∷ [] ∷ [] ∷ (0 ∷ []) ∷ []

-- The second 7 is a duplicate, the nonces that cannot be read are not, and the zero identifier is
-- one although no packet had it.
answers_six :
    answers one_byte new_user_packet_deduper nonces
    ≡ false ∷ false ∷ true ∷ false ∷ false ∷ true ∷ []
unfolding answers is_duplicate is_duplicate_id forget has put
answers_six = refl

answers-queue_answers_example :
    answers one_byte new_user_packet_deduper nonces ≡ queue_answers one_byte (0 ∷ []) nonces
answers-queue_answers_example = answers-queue_answers one_byte nonces
