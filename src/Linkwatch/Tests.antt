-- ===== src/Linkwatch/Tests.antt =====
-- Concrete runs of the link events, on the interfaces a and b.
use darwin_net.Prelude.{◌≡◌, refl, true, false, List, [], ◌∷◌, some, none, list_eq, nat_eq}
use darwin_net.Prelude.Maps.{lookup}
use darwin_net.Prelude.Texts.{Text, codes}
use darwin_net.Linkwatch.{
  Links, Received, event, timer, diff, receive, debounce, new_debouncer, deliver, deliver_all,
  changes, vanished, sort_events, insert_event,
}
use darwin_net.Prelude.Sorting.{sort_by, insert_by}
use darwin_net.Linkwatch.Diff.{told, diff-told}
use darwin_net.Linkwatch.Debounce.{Unrepeated, last_of, debounce-Unrepeated, debounce_settles}

abbrev a : Text
a = codes "a"

abbrev b : Text
b = codes "b"

abbrev before : Links
before = (a, true) ∷ (b, true) ∷ []

abbrev after : Links
after = (b, false) ∷ []

diff-told_example : told a (diff (some before) after) (some true) ≡ none
diff-told_example = diff-told (some before) after a (refl, (refl, tt)) (refl, tt)

-- a has gone and b has lost its link
diff_events :
    diff (some before) after
    ≡ record { iface = a; up = false; gone = true }
      ∷ record { iface = b; up = false; gone = false }
      ∷ []
unfolding diff changes vanished sort_events insert_event
diff_events = refl

abbrev flap : List Received
flap =
    event (record { iface = a; up = true; gone = false })
    ∷ timer
    ∷ event (record { iface = a; up = false; gone = false })
    ∷ event (record { iface = a; up = true; gone = false })
    ∷ timer
    ∷ []

debounce-Unrepeated_example : Unrepeated (debounce new_debouncer flap).sent
debounce-Unrepeated_example = debounce-Unrepeated flap

-- the flap is not sent
flap_sent : (debounce new_debouncer flap).sent ≡ record { iface = a; up = true; gone = false } ∷ []
unfolding debounce receive deliver_all deliver sort_by insert_by
flap_sent = refl

debounce_settles_example :
    let s = receive (debounce new_debouncer flap) timer in
    (last_of a s.sent ≡ some (record { iface = a; up = true; gone = false }))
    × (lookup a s.pending ≡ none)
debounce_settles_example = debounce_settles flap a
