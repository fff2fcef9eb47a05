-- ===== src/Linkwatch.antt =====
-- Link events (pkg/linkwatch/linkwatch.go): the difference of two polls and the debounce. A goroutine
-- that selects on its channels is a step per received value; the poll's ticker, the carrier reads and
-- the merge of the sources are not modelled.
pub mod Diff
pub mod Debounce
mod Tests
use darwin_net.Prelude.{
  ℕ, ◌≡◌, ◌↔◌, arith, Bool, true, false, not, ◌&&◌, ◌||◌, if◌then◌else◌, List, [], ◌∷◌, ◌++◌,
  Option, none, some, Eq, ◌==◌, nat_eq, list_eq, list_beq_iff, elem,
}
use darwin_net.Prelude.Maps.{lookup, insert, delete, keys}
use darwin_net.Prelude.Texts.{Text, text_less}
use darwin_net.Prelude.Sorting.{sort_by, text_order}

pub record Event : Type 0 where
  pub iface : Text
  pub up : Bool
  pub gone : Bool

abbrev pub bool_beq : Bool → Bool → Bool
bool_beq true b = b
bool_beq false b = not b

abbrev pub event_beq : Event → Event → Bool
event_beq a b = (a.iface == b.iface) && bool_beq a.up b.up && bool_beq a.gone b.gone

pub event_beq_iff : (a b : Event) → (event_beq a b ≡ true) ↔ (a ≡ b)
event_beq_iff a b = ground (arith, list_beq_iff a.iface b.iface)

instance abbrev pub event_eq : Eq Event
event_eq = record { beq = event_beq; beq_iff = event_beq_iff }

-- the state of each interface
abbrev pub Links : Type 0
Links = List (Text × Bool)

-- prev is none before the first poll
abbrev pub was_at : Text → Option Links → Option Bool
was_at name none = none
was_at name (some prev) = lookup name prev

abbrev pub changed : Option Bool → Bool → Bool
changed none up = true
changed (some was) up = not (bool_beq was up)

unfoldable pub changes : Option Links → Links → List Event
changes prev [] = []
changes prev ((name, up) ∷ next) =
    let rest = changes prev next in
    if changed (was_at name prev) up
    then record { iface = name; up = up; gone = false } ∷ rest
    else rest

unfoldable pub vanished : Links → Links → List Event
vanished [] next = []
vanished ((name, up) ∷ prev) next =
    let rest = vanished prev next in
    if elem name (keys next) then rest else record { iface = name; up = false; gone = true } ∷ rest

-- sort.Slice by the interface's name
unfoldable pub insert_event : Event → List Event → List Event
insert_event e [] = e ∷ []
insert_event e (d ∷ ds) =
    let rest = insert_event e ds in if text_less d.iface e.iface then d ∷ rest else e ∷ d ∷ ds

unfoldable pub sort_events : List Event → List Event
sort_events [] = []
sort_events (e ∷ es) = insert_event e (sort_events es)

unfoldable pub diff : Option Links → Links → List Event
diff prev next =
    sort_events (changes prev next ++ elim prev [ none ↦ [] | some p ↦ vanished p next ])

-- The debounce: what waits, what was delivered last, whether the timer is armed, and the events that
-- went out, the latest first.
pub record Debouncer : Type 0 where
  pub pending : List (Text × Event)
  pub delivered : List (Text × Event)
  pub armed : Bool
  pub sent : List Event

abbrev pub new_debouncer : Debouncer
new_debouncer = record { pending = []; delivered = []; armed = false; sent = [] }

-- what the select receives: an event, or the timer
pub data Received : Type 0 where
  event : Event → Received
  timer : Received

-- one name of the burst
unfoldable pub deliver : Debouncer → Text → Debouncer
deliver s name = elim (lookup name s.pending) [
  | none ↦ s
  | some ev ↦
      let s1 : Debouncer = record s { pending = delete name s.pending } in
      let s2 : Debouncer = record s1 {
        delivered = insert name ev s.delivered;
        sent = ev ∷ s.sent;
      } in
      elim (lookup name s.delivered) [ none ↦ s2 | some last ↦ if last == ev then s1 else s2 ]
]

unfoldable pub deliver_all : Debouncer → List Text → Debouncer
deliver_all s [] = s
deliver_all s (name ∷ names) = deliver_all (deliver s name) names

unfoldable pub receive : Debouncer → Received → Debouncer
receive s (event ev) = record s { pending = insert ev.iface ev s.pending; armed = true }
receive s timer =
    if s.armed
    then deliver_all (record s { armed = false }) (sort_by text_order (keys s.pending))
    else s

unfoldable pub debounce : Debouncer → List Received → Debouncer
debounce s [] = s
debounce s (r ∷ rs) = debounce (receive s r) rs
