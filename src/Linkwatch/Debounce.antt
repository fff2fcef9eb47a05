-- ===== src/Linkwatch/Debounce.antt =====
-- Runs of the debounce (linkwatch.go: Debounce): what goes out against what came in.
use darwin_net.Prelude.{
  ◌≡◌, ◌≢◌, ap, sym, ◌∙◌, arith, refl, false, if◌then◌else◌, List, [], ◌∷◌, Option, none, some,
  ◌==◌, nat_eq, list_eq, list_beq_iff, elem, Bool-cases, Option-cases, inl, inr,
}
use darwin_net.Prelude.Maps.{
  lookup, insert, delete, keys, lookup-insert, lookup-delete, elem-keys-lookup,
}
use darwin_net.Prelude.Texts.{Text}
use darwin_net.Prelude.Sorting.{sort_by, elem-sort_by, text_order}
use darwin_net.Linkwatch.{
  Event, event_eq, event_beq_iff, Debouncer, new_debouncer, Received, event, timer, deliver,
  deliver_all, receive, debounce,
}

-- the latest event of an interface, in a list whose head is the latest
abbrev pub last_of : Text → List Event → Option Event
last_of name [] = none
last_of name (e ∷ es) = let older = last_of name es in if e.iface == name then some e else older

-- no event equals the one before it of its interface
abbrev pub Unrepeated : List Event → Type 0
Unrepeated [] = Unit
Unrepeated (e ∷ es) = (last_of e.iface es ≢ some e) × Unrepeated es

-- the events of an input, the latest first
abbrev pub arrived : List Event → List Received → List Event
arrived es [] = es
arrived es (event e ∷ rs) = arrived (e ∷ es) rs
arrived es (timer ∷ rs) = arrived es rs

-- what an interface will have been told when the burst has gone out
abbrev pub due : Debouncer → Text → Option Event
due s name = elim (lookup name s.pending) [ some e ↦ some e | none ↦ lookup name s.delivered ]

pub record Coherent (s : Debouncer) : Type 0 where
  pub told : (name : Text) → last_of name s.sent ≡ lookup name s.delivered
  pub unrepeated : Unrepeated s.sent
  pub named : (name : Text) (e : Event) → lookup name s.pending ≡ some e → e.iface ≡ name

-- what a delivery keeps
abbrev Delivers : Debouncer → Text → Debouncer → Type 0
Delivers s name s' =
    Coherent s'
    × ((n : Text) → due s' n ≡ due s n)
    × ((n : Text) → lookup n s'.pending ≡ (if name == n then none else lookup n s.pending))
    × (s'.armed ≡ s.armed)

-- the event goes out
sent-Delivers :
    (s : Debouncer) (name : Text) (ev : Event)
    → Coherent s
    → lookup name s.pending ≡ some ev
    → lookup name s.delivered ≢ some ev
    → Delivers s name (record s {
      pending = delete name s.pending;
      delivered = insert name ev s.delivered;
      sent = ev ∷ s.sent;
    })
sent-Delivers s name ev c waiting news =
    let at : ev.iface ≡ name = c.named name ev waiting in
    (
      record {
        told = λ n. ground (
          arith,
          at,
          c.told n,
          lookup-insert name n ev s.delivered,
          list_beq_iff name n,
          list_beq_iff ev.iface n,
        );
        unrepeated = (
          λ h. news (sym (ap (λ n. lookup n s.delivered) at) ∙ sym (c.told ev.iface) ∙ h),
          c.unrepeated,
        );
        named = λ n e h. ground (arith, h, lookup-delete name n s.pending, c.named n e);
      },
      λ n. ground (
        arith,
        waiting,
        lookup-delete name n s.pending,
        lookup-insert name n ev s.delivered,
        list_beq_iff name n,
      ),
      λ n. lookup-delete name n s.pending,
      refl,
    )

-- the event equals the last one delivered
dropped-Delivers :
    (s : Debouncer) (name : Text) (ev : Event)
    → Coherent s
    → lookup name s.pending ≡ some ev
    → lookup name s.delivered ≡ some ev
    → Delivers s name (record s { pending = delete name s.pending })
dropped-Delivers s name ev c waiting old = (
  record {
    told = c.told;
    unrepeated = c.unrepeated;
    named = λ n e h. ground (arith, h, lookup-delete name n s.pending, c.named n e);
  },
  λ n. ground (arith, waiting, old, lookup-delete name n s.pending, list_beq_iff name n),
  λ n. lookup-delete name n s.pending,
  refl,
)

deliver-Delivers : (s : Debouncer) (name : Text) → Coherent s → Delivers s name (deliver s name)
unfolding deliver
deliver-Delivers s name c = elim (Option-cases (lookup name s.pending)) [
  | inl absent ↦
      rw (absent, deliver) (c, λ n. refl, λ n. ground (arith, absent, list_beq_iff name n), refl)
  | inr (ev, waiting) ↦ elim (Option-cases (lookup name s.delivered)) [
    | inl first ↦
        rw (waiting, first, deliver)
          (sent-Delivers s name ev c waiting (λ h. ground (arith, h, first)))
    | inr (last, known) ↦ elim (Bool-cases (last == ev)) [
      | inl same ↦
          let e : last ≡ ev = (event_beq_iff last ev).0 same in
          rw (waiting, known, same, deliver)
            (dropped-Delivers s name ev c waiting (known ∙ ap some e))
      | inr differ ↦
          rw (waiting, known, differ, deliver)
            (sent-Delivers s name ev c waiting
              (λ h. ground (arith, h, known, differ, event_beq_iff last ev)))
    ]
  ]
]

deliver_all_lem :
    (s : Debouncer) (names : List Text)
    → Coherent s
    → let s' = deliver_all s names in
      Coherent s'
      × ((n : Text) → due s' n ≡ due s n)
      × ((n : Text) → lookup n s'.pending ≡ (if elem n names then none else lookup n s.pending))
unfolding deliver_all
deliver_all_lem s [] c = (c, λ n. refl, λ n. refl)
deliver_all_lem s (name ∷ names) c =
    let (c1, due1, left1, armed1) = deliver-Delivers s name c in
    let (c2, due2, left2) = deliver_all_lem (deliver s name) names c1 in
    (c2, λ n. due2 n ∙ due1 n, λ n. ground (arith, left1 n, left2 n))

-- the debouncer after an input, with the events that have arrived
pub record Tracks (s : Debouncer) (seen : List Event) : Type 0 where
  pub coherent : Coherent s
  pub due_seen : (name : Text) → due s name ≡ last_of name seen
  pub idle : s.armed ≡ false → (name : Text) → lookup name s.pending ≡ none

receive_event-Tracks :
    (s : Debouncer) (seen : List Event) (ev : Event)
    → Tracks s seen
    → Tracks (receive s (event ev)) (ev ∷ seen)
unfolding receive
receive_event-Tracks s seen ev t = record {
  coherent = record {
    told = t.coherent.told;
    unrepeated = t.coherent.unrepeated;
    named = λ n e h. ground (
      arith,
      h,
      lookup-insert ev.iface n ev s.pending,
      list_beq_iff ev.iface n,
      t.coherent.named n e,
    );
  };
  due_seen = λ n. ground (arith, lookup-insert ev.iface n ev s.pending, t.due_seen n);
  idle = λ h. absurd (ground (arith, h));
}

receive_timer-Tracks :
    (s : Debouncer) (seen : List Event)
    → Tracks s seen
    → Tracks (receive s timer) seen × ((name : Text) → lookup name (receive s timer).pending ≡ none)
receive_timer-Tracks s seen t = elim (Bool-cases s.armed) [
  | inr off ↦
      let same : receive s timer ≡ s = unfold receive in ground (arith, off) in
      rw same (t, t.idle off)
  | inl on ↦
      let s0 : Debouncer = record s { armed = false } in
      let names : List Text = sort_by text_order (keys s.pending) in
      let c0 : Coherent s0 = record {
        told = t.coherent.told;
        unrepeated = t.coherent.unrepeated;
        named = t.coherent.named;
      } in
      let (c, same, left) = deliver_all_lem s0 names c0 in
      let empty : (n : Text) → lookup n (deliver_all s0 names).pending ≡ none = λ n.
        ground (
          arith,
          left n,
          elem-sort_by text_order n (keys s.pending),
          elem-keys-lookup n s.pending,
        ) in
      let fired : receive s timer ≡ deliver_all s0 names = unfold receive in rw on refl in
      rw fired
        (record { coherent = c; due_seen = λ n. same n ∙ t.due_seen n; idle = λ h. empty }, empty)
]

new_debouncer-Tracks : Tracks new_debouncer []
new_debouncer-Tracks = record {
  coherent = record {
    told = λ n. refl;
    unrepeated = tt;
    named = λ n e h. absurd (ground (arith, h));
  };
  due_seen = λ n. refl;
  idle = λ h n. refl;
}

debounce-Tracks :
    (s : Debouncer) (seen : List Event) (rs : List Received)
    → Tracks s seen
    → Tracks (debounce s rs) (arrived seen rs)
unfolding debounce
debounce-Tracks s seen [] t = t
debounce-Tracks s seen (event e ∷ rs) t =
    debounce-Tracks (receive s (event e)) (e ∷ seen) rs (receive_event-Tracks s seen e t)
debounce-Tracks s seen (timer ∷ rs) t =
    debounce-Tracks (receive s timer) seen rs (receive_timer-Tracks s seen t).0

-- Whatever a new debouncer receives, it never sends an event twice in a row for an interface.
pub debounce-Unrepeated : (rs : List Received) → Unrepeated (debounce new_debouncer rs).sent
debounce-Unrepeated rs =
    (debounce-Tracks new_debouncer [] rs new_debouncer-Tracks).coherent.unrepeated

-- When the timer fires after any input, every interface has been sent the last event that arrived for
-- it, and nothing is left waiting.
pub debounce_settles :
    (rs : List Received) (name : Text)
    → let s = receive (debounce new_debouncer rs) timer in
      (last_of name s.sent ≡ last_of name (arrived [] rs)) × (lookup name s.pending ≡ none)
debounce_settles rs name =
    let s1 = debounce new_debouncer rs in
    let (t, empty) =
      receive_timer-Tracks s1 (arrived [] rs)
        (debounce-Tracks new_debouncer [] rs new_debouncer-Tracks) in
    (ground (arith, t.coherent.told name, t.due_seen name, empty name), empty name)
