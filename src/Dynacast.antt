-- ===== src/Dynacast.antt =====
-- pkg/rtc/dynacast/dynacastquality.go: the highest video quality that the subscribers of a codec need.
-- Identifiers and qualities are numbers, as those of the protocol's enumeration; `off` is its value
-- VideoQuality_OFF. A Go map is a list of its entries, in the order in which a loop meets them. A
-- method returns the new state and the quality that is notified, if one is. The timer is only armed
-- or not, and `fire` is its function.
pub mod Highest
pub mod Regress
mod Examples
use voicekit.Prelude.{
  ℕ, Bool, true, false, not, ◌&&◌, ◌||◌, Option, none, some, List, [], ◌∷◌, map, ltb, ◌==◌,
  if◌then◌else◌,
}

abbrev pub Qualities : Type 0
Qualities = List (ℕ × ℕ)

pub put : ℕ → ℕ → Qualities → Qualities
put id q [] = (id, q) ∷ []
put id q ((j, p) ∷ rest) =
    let later = (j, p) ∷ put id q rest in if j == id then (id, q) ∷ rest else later

pub delete : ℕ → Qualities → Qualities
delete id [] = []
delete id ((j, p) ∷ rest) = let later = (j, p) ∷ delete id rest in if j == id then rest else later

-- `RegressTo` keeps the higher quality where both have one.
pub put_higher : ℕ → ℕ → Qualities → Qualities
put_higher id q [] = (id, q) ∷ []
put_higher id q ((j, p) ∷ rest) =
    let later = (j, p) ∷ put_higher id q rest in
    if j == id then (j, if ltb p q then q else p) ∷ rest else later

pub merge : Qualities → Qualities → Qualities
merge [] other = other
merge ((id, q) ∷ rest) other = merge rest (put_higher id q other)

abbrev pub values : Qualities → List ℕ
values = map (λ e. e.1)

-- `regressed` tells whether there is another quality to which calls go.
pub record DynacastQuality : Type 0 where
  pub initialized : Bool
  pub max_subscriber_quality : Qualities
  pub max_subscriber_node_quality : Qualities
  pub max_subscribed_quality : ℕ
  pub timer_armed : Bool
  pub regressed : Bool

-- What became of a call: it was handled here, or goes to the other quality.
pub data Notified : Type 0 where
  handled : DynacastQuality → Option ℕ → Notified
  passed_on : Notified

pub new_dynacast_quality : DynacastQuality
new_dynacast_quality = record {
  initialized = false;
  max_subscriber_quality = [];
  max_subscriber_node_quality = [];
  max_subscribed_quality = 0;
  timer_armed = false;
  regressed = false;
}

-- `Start` and `Restart`
pub reset : DynacastQuality → DynacastQuality
reset d = record d { initialized = false; timer_armed = true }

pub stop : DynacastQuality → DynacastQuality
stop d = record d { timer_armed = false }

module _ (off : ℕ) where
  -- One loop of `updateQualityChange`.
  pub highest : ℕ → List ℕ → ℕ
  highest top [] = top
  highest top (q ∷ qs) = highest (if top == off || (not (q == off) && ltb top q) then q else top) qs

  pub needed : Qualities → Qualities → ℕ
  needed subs nodes = highest (highest off (values subs)) (values nodes)

  pub update_quality_change : DynacastQuality → Bool → DynacastQuality × Option ℕ
  update_quality_change d force =
      let q = needed d.max_subscriber_quality d.max_subscriber_node_quality in
      if q == d.max_subscribed_quality && d.initialized && not force
      then (d, none)
      else (record d { initialized = true; max_subscribed_quality = q }, some q)

  abbrev pub handle : DynacastQuality × Option ℕ → Notified
  handle (d, note) = handled d note

  abbrev pub change : ℕ → ℕ → Qualities → Qualities
  change id q m = if q == off then delete id m else put id q m

  pub notify_subscriber_max_quality : DynacastQuality → ℕ → ℕ → Notified
  notify_subscriber_max_quality d id q =
      if d.regressed
      then passed_on
      else handle (
          update_quality_change
            (record d { max_subscriber_quality = change id q d.max_subscriber_quality }) false)

  -- Node qualities are not passed on, but ignored: the node sends its own.
  pub notify_subscriber_node_max_quality : DynacastQuality → ℕ → ℕ → DynacastQuality × Option ℕ
  notify_subscriber_node_max_quality d id q =
      if d.regressed
      then (d, none)
      else update_quality_change
          (record d { max_subscriber_node_quality = change id q d.max_subscriber_node_quality })
          false

  pub clear_subscriber_nodes_max_quality : DynacastQuality → DynacastQuality × Option ℕ
  clear_subscriber_nodes_max_quality d =
      update_quality_change (record d { max_subscriber_node_quality = [] }) false

  pub fire : DynacastQuality → DynacastQuality × Option ℕ
  fire d = update_quality_change (stop d) true

-- The two qualities after `RegressTo`.
pub regress_to : DynacastQuality → DynacastQuality → DynacastQuality × DynacastQuality
regress_to d other = (
  record d { regressed = true; max_subscriber_quality = []; max_subscriber_node_quality = [] },
  reset (record other {
    max_subscriber_quality = merge d.max_subscriber_quality other.max_subscriber_quality;
    max_subscriber_node_quality =
        merge d.max_subscriber_node_quality other.max_subscriber_node_quality;
  }),
)
