-- ===== src/Linkwatch/Diff.antt =====
-- The events of diff (linkwatch.go), applied in order to the states of the last poll.
use darwin_net.Prelude.{
  ◌≡◌, ap, ◌∙◌, arith, refl, Bool, true, false, not, ◌&&◌, ◌||◌, if◌then◌else◌, List, [], ◌∷◌, ◌++◌,
  Option, none, some, ◌==◌, ==_refl, nat_eq, list_eq, list_beq_iff, elem, Bool-cases, Option-cases,
  inl, inr, Distinct,
}
use darwin_net.Prelude.Maps.{lookup, keys, elem-keys-lookup}
use darwin_net.Prelude.Texts.{Text, text_less}
use darwin_net.Linkwatch.{
  Event, event_eq, Links, was_at, changed, changes, vanished, insert_event, sort_events, diff,
}

-- what one event tells about an interface
abbrev pub tell : Text → Event → Option Bool → Option Bool
tell name e known = if e.iface == name then (if e.gone then none else some e.up) else known

-- what a consumer knows of an interface after some events
abbrev pub told : Text → List Event → Option Bool → Option Bool
told name [] known = known
told name (e ∷ es) known = told name es (tell name e known)

abbrev ifaces : List Event → List Text
ifaces [] = []
ifaces (e ∷ es) = e.iface ∷ ifaces es

elem-ifaces_insert :
    (name : Text) (e : Event) (es : List Event)
    → elem name (ifaces (insert_event e es)) ≡ ((e.iface == name) || elem name (ifaces es))
unfolding insert_event
elem-ifaces_insert name e [] = refl
elem-ifaces_insert name e (d ∷ es) = ground (arith, elem-ifaces_insert name e es)

told_insert :
    (name : Text) (e : Event) (es : List Event) (known : Option Bool)
    → elem e.iface (ifaces es) ≡ false
    → told name (insert_event e es) known ≡ told name (e ∷ es) known
unfolding insert_event
told_insert name e [] known fresh = refl
told_insert name e (d ∷ es) known fresh =
    let swap : tell name e (tell name d known) ≡ tell name d (tell name e known) = ground (
      arith,
      fresh,
      list_beq_iff d.iface name,
      list_beq_iff e.iface name,
      list_beq_iff d.iface e.iface,
    ) in
    elim (Bool-cases (text_less d.iface e.iface)) [
      | inl before ↦ rw before (
          told_insert name e es (tell name d known) (ground (arith, fresh))
          ∙ ap (told name es) swap)
      | inr after ↦ rw after refl
    ]

elem-ifaces_sort :
    (name : Text) (es : List Event) → elem name (ifaces (sort_events es)) ≡ elem name (ifaces es)
unfolding sort_events
elem-ifaces_sort name [] = refl
elem-ifaces_sort name (e ∷ es) =
    ground (arith, elem-ifaces_insert name e (sort_events es), elem-ifaces_sort name es)

told_sort :
    (name : Text) (es : List Event) (known : Option Bool)
    → Distinct (ifaces es)
    → told name (sort_events es) known ≡ told name es known
unfolding sort_events
told_sort name [] known d = refl
told_sort name (e ∷ es) known d =
    told_insert name e (sort_events es) known (ground (arith, d.0, elem-ifaces_sort e.iface es))
    ∙ told_sort name es (tell name e known) d.1

told_append :
    (name : Text) (xs ys : List Event) (known : Option Bool)
    → told name (xs ++ ys) known ≡ told name ys (told name xs known)
told_append name [] ys known = refl
told_append name (x ∷ xs) ys known = told_append name xs ys _

-- the changed states of the interfaces that the next poll lists
elem-ifaces-changes :
    (prev : Option Links) (next : Links) (name : Text)
    → elem name (keys next) ≡ false
    → elem name (ifaces (changes prev next)) ≡ false
unfolding changes
elem-ifaces-changes prev [] name h = refl
elem-ifaces-changes prev ((n, up) ∷ next) name h =
    ground (arith, h, elem-ifaces-changes prev next name)

told_absent :
    (name : Text) (es : List Event) (known : Option Bool)
    → elem name (ifaces es) ≡ false
    → told name es known ≡ known
told_absent name [] known h = refl
told_absent name (e ∷ es) known h = ground (arith, h, told_absent name es known)

was_changed :
    (name : Text) (prev : Option Links) (up : Bool)
    → changed (was_at name prev) up ≡ false
    → was_at name prev ≡ some up
was_changed name prev up h = elim (Option-cases (was_at name prev)) [
  | inl unknown ↦ absurd (ground (arith, h, unknown))
  | inr (was, known) ↦ ground (arith, h, known)
]

told_changes :
    (prev : Option Links) (next : Links) (name : Text)
    → Distinct (keys next)
    → told name (changes prev next) (was_at name prev)
      ≡ (if elem name (keys next) then lookup name next else was_at name prev)
unfolding changes
told_changes prev [] name d = refl
told_changes prev ((n, up) ∷ next) name d =
    let e : Event = record { iface = n; up = up; gone = false } in
    elim (Bool-cases (n == name)) [
      | inl same ↦
          let at : n ≡ name = (list_beq_iff n name).0 same in
          let absent : elem name (ifaces (changes prev next)) ≡ false =
            elem-ifaces-changes prev next name (rw at at d.0) in
          ground (
            arith,
            same,
            at,
            told_absent name (changes prev next) (some up) absent,
            told_absent name (changes prev next) (was_at name prev) absent,
            was_changed name prev up,
          )
      | inr differ ↦ ground (arith, differ, told_changes prev next name d.1)
    ]

told_vanished :
    (prev next : Links) (name : Text) (known : Option Bool)
    → told name (vanished prev next) known
      ≡ (if elem name (keys prev) && not (elem name (keys next)) then none else known)
unfolding vanished
told_vanished [] next name known = refl
told_vanished ((n, up) ∷ prev) next name known = ground (
  arith,
  list_beq_iff n name,
  told_vanished prev next name known,
  told_vanished prev next name none,
)

elem-ifaces-vanished :
    (prev next : Links) (name : Text)
    → elem name (ifaces (vanished prev next))
      ≡ (elem name (keys prev) && not (elem name (keys next)))
unfolding vanished
elem-ifaces-vanished [] next name = refl
elem-ifaces-vanished ((n, up) ∷ prev) next name =
    ground (arith, list_beq_iff n name, elem-ifaces-vanished prev next name)

Distinct-changes :
    (prev : Option Links) (next : Links)
    → Distinct (keys next)
    → Distinct (ifaces (changes prev next))
unfolding changes
Distinct-changes prev [] d = tt
Distinct-changes prev ((n, up) ∷ next) d =
    ground (arith, Distinct-changes prev next d.1, elem-ifaces-changes prev next n d.0)

Distinct-vanished :
    (prev next : Links) → Distinct (keys prev) → Distinct (ifaces (vanished prev next))
unfolding vanished
Distinct-vanished [] next d = tt
Distinct-vanished ((n, up) ∷ prev) next d =
    ground (arith, d.0, Distinct-vanished prev next d.1, elem-ifaces-vanished prev next n)

elem-ifaces_append :
    (name : Text) (xs ys : List Event)
    → elem name (ifaces (xs ++ ys)) ≡ (elem name (ifaces xs) || elem name (ifaces ys))
elem-ifaces_append name [] ys = refl
elem-ifaces_append name (x ∷ xs) ys = ground (arith, elem-ifaces_append name xs ys)

Distinct-append :
    (xs ys : List Event)
    → Distinct (ifaces xs)
    → Distinct (ifaces ys)
    → ((name : Text) → elem name (ifaces xs) ≡ true → elem name (ifaces ys) ≡ false)
    → Distinct (ifaces (xs ++ ys))
Distinct-append [] ys dx dy apart = dy
Distinct-append (x ∷ xs) ys dx dy apart = (
  ground (arith, dx.0, elem-ifaces_append x.iface xs ys, apart x.iface, ==_refl x.iface),
  Distinct-append xs ys dx.1 dy (λ name h. apart name (ground (arith, h))),
)

-- the interfaces of a first poll, or of none before it
abbrev pub known_links : Option Links → Links
known_links none = []
known_links (some prev) = prev

-- A consumer that knew each interface's state at the last poll, and applies the events of diff in
-- order, knows each interface's state at the next one; an interface that is no longer listed is
-- forgotten.
pub diff-told :
    (prev : Option Links) (next : Links) (name : Text)
    → Distinct (keys (known_links prev))
    → Distinct (keys next)
    → told name (diff prev next) (was_at name prev) ≡ lookup name next
unfolding diff
diff-told none next name dp dn =
    let es = changes none next in
    let distinct = Distinct-append es [] (Distinct-changes none next dn) tt (λ n h. refl) in
    told_sort name (es ++ []) none distinct
    ∙ told_append name es [] none
    ∙ (ground (arith, told_changes none next name dn, elem-keys-lookup name next))
diff-told (some prev) next name dp dn =
    let es = changes (some prev) next in
    let vs = vanished prev next in
    let apart : (n : Text) → elem n (ifaces es) ≡ true → elem n (ifaces vs) ≡ false = λ n h.
      ground (arith, h, elem-ifaces-changes (some prev) next n, elem-ifaces-vanished prev next n) in
    let distinct =
      Distinct-append es vs (Distinct-changes (some prev) next dn) (Distinct-vanished prev next dp)
        apart in
    told_sort name (es ++ vs) (lookup name prev) distinct
    ∙ told_append name es vs (lookup name prev)
    ∙ (ground (
      arith,
      told_changes (some prev) next name dn,
      told_vanished prev next name (told name es (lookup name prev)),
      elem-keys-lookup name next,
      elem-keys-lookup name prev,
    ))
