-- ===== src/PacketDeduper.antt =====
-- pkg/rtc/user_packet_deduper.go: whether a user's packet was among the last hundred. An identifier
-- is a number, 0 being the one that a new UUID is. A Go map is a list of its entries. `from_bytes` is
-- uuid.FromBytes, from github.com/google/uuid, with `none` for its error.
pub mod Queue
pub mod Recent
mod Examples
use voicekit.Prelude.{
  ℕ, suc, Bool, true, false, ◌||◌, Option, none, some, List, [], ◌∷◌, length, ◌==◌, if◌then◌else◌,
}

abbrev pub Seen : Type 0
Seen = List (ℕ × ℕ)

unfoldable pub has : ℕ → Seen → Bool
has id [] = false
has id ((k, v) ∷ rest) = k == id || has id rest

-- `seen[id]`, which is the zero value for a missing key
unfoldable pub get : ℕ → Seen → ℕ
get id [] = 0
get id ((k, v) ∷ rest) = if k == id then v else get id rest

unfoldable pub put : ℕ → ℕ → Seen → Seen
put id next [] = (id, next) ∷ []
put id next ((k, v) ∷ rest) =
    let later = (k, v) ∷ put id next rest in if k == id then (k, next) ∷ rest else later

unfoldable pub delete : ℕ → Seen → Seen
delete id [] = []
delete id ((k, v) ∷ rest) = let later = (k, v) ∷ delete id rest in if k == id then rest else later

abbrev pub max_size : ℕ
max_size = 100

pub record UserPacketDeduper : Type 0 where
  pub seen : Seen
  pub head : ℕ
  pub tail : ℕ

abbrev pub new_user_packet_deduper : UserPacketDeduper
new_user_packet_deduper = record { seen = []; head = 0; tail = 0 }

-- The oldest entry goes when the map is full.
unfoldable pub forget : UserPacketDeduper → UserPacketDeduper
forget u =
    if length u.seen == max_size
    then record u { tail = get u.tail u.seen; seen = delete u.tail u.seen }
    else u

unfoldable pub is_duplicate_id : UserPacketDeduper → ℕ → UserPacketDeduper × Bool
is_duplicate_id u id =
    if u.head == id || has id u.seen
    then (u, true)
    else (forget (record u { seen = put u.head id u.seen; head = id }), false)

unfoldable pub is_duplicate :
    (List ℕ → Option ℕ) → UserPacketDeduper → List ℕ → UserPacketDeduper × Bool
is_duplicate from_bytes u nonce = elim (from_bytes nonce) [
  | none ↦ (u, false)
  | some id ↦ is_duplicate_id u id
]

-- The answers to a sequence of packets
unfoldable pub answers : (List ℕ → Option ℕ) → UserPacketDeduper → List (List ℕ) → List Bool
answers from_bytes u [] = []
answers from_bytes u (nonce ∷ nonces) =
    let r = is_duplicate from_bytes u nonce in r.1 ∷ answers from_bytes r.0 nonces
