-- ===== src/Events/Subscriptions.antt =====
-- `Subscribe` of internal/events/bus.go and its closure, against the invariant of the bus.
use telegram_remote_terminal.Prelude.{
  ℕ, suc, ℤ, ◌≤◌, ◌≡◌, ◌≢◌, refl, ◌⊎◌, inl, inr, true, Option, none, some, arith, Map, IsMap,
  lookup, lookup-insert, lookup-insert_self, lookup-insert_cases, lookup-remove-some,
  lookup-remove_ne, subst, sym, insert-IsMap, remove-IsMap, int_key, nat_key, ==_iff, eq_ℤ_iff,
  ◌==◌, eq_ℤ, Option-cases, Bool-cases, ◌∙◌, length,
}
use telegram_remote_terminal.Events.{Channel, Bus, subscribe, unsubscribe, subs_of, close_channel}
use telegram_remote_terminal.Events.Delivery.{IsOpen}
use telegram_remote_terminal.Events.Invariant.{
  Inv, subs_of-subscribe, subs_of-unsubscribe, channels-unsubscribe, unsubscribe_absent,
}

member-subscribe :
    (b : Bus) (chat chat' : ℤ) (ch : ℕ)
    → lookup ch (subs_of (subscribe b chat).0 chat') ≡ some tt
    → ((chat ≡ chat') × (b.next ≡ ch)) ⊎ (lookup ch (subs_of b chat') ≡ some tt)
member-subscribe b chat chat' ch m = elim (Bool-cases (eq_ℤ chat chat')) [
  | inl here ↦
      let same = (eq_ℤ_iff chat chat').0 here in
      elim (lookup-insert_cases b.next ch tt tt (subs_of b chat)
        (rw (subs_of-subscribe b chat chat', here) at m)) [
          | inl (new, _) ↦ inl (same, new)
          | inr old ↦ inr (subst (λ c. lookup ch (subs_of b c) ≡ some tt) same old)
        ]
  | inr elsewhere ↦ inr (rw (subs_of-subscribe b chat chat', elsewhere) at m)
]

opened-subscribe :
    (b : Bus) (chat : ℤ) (ch : ℕ)
    → IsOpen (lookup ch b.channels)
    → IsOpen (lookup ch (subscribe b chat).0.channels)
unfolding subscribe
opened-subscribe b chat ch h =
    rw lookup-insert
      (elim (Bool-cases (b.next == ch)) [ inl new ↦ rw new refl | inr old ↦ rw old h ])

opened-subscribe_new : (b : Bus) (chat : ℤ) → IsOpen (lookup b.next (subscribe b chat).0.channels)
unfolding subscribe
opened-subscribe_new b chat = rw lookup-insert_self refl

bounded-subscribe :
    (b : Bus) (chat : ℤ) (ch : ℕ) (c : Channel)
    → Inv b
    → lookup ch (subscribe b chat).0.channels ≡ some c
    → length c.buffer ≤ c.capacity
unfolding subscribe
bounded-subscribe b chat ch c h m = elim (lookup-insert_cases b.next ch _ c b.channels m) [
  | inl (_, new) ↦ rw (← new) (omega arith)
  | inr old ↦ h.bounded ch c old
]

next-subscribe : (b : Bus) (chat : ℤ) → (subscribe b chat).0.next ≡ suc b.next
unfolding subscribe
next-subscribe b chat = refl

distinct-subscribe : (b : Bus) (chat chat' : ℤ) → Inv b → IsMap (subs_of (subscribe b chat).0 chat')
distinct-subscribe b chat chat' h = rw subs_of-subscribe (elim (Bool-cases (eq_ℤ chat chat')) [
  | inl here ↦ rw here (insert-IsMap b.next tt (subs_of b chat) (h.distinct chat))
  | inr elsewhere ↦ rw elsewhere (h.distinct chat')
])

pub subscribe-Inv : (b : Bus) (chat : ℤ) → Inv b → Inv (subscribe b chat).0
subscribe-Inv b chat h = record {
  distinct = λ chat'. distinct-subscribe b chat chat' h;
  opened = λ chat' ch m. elim (member-subscribe b chat chat' ch m) [
    | inl (_, new) ↦
        subst (λ k. IsOpen (lookup k (subscribe b chat).0.channels)) new
          (opened-subscribe_new b chat)
    | inr old ↦ opened-subscribe b chat ch (h.opened chat' ch old)
  ];
  older = λ chat' ch m. elim (member-subscribe b chat chat' ch m) [
    | inl (_, new) ↦ omega (arith, next-subscribe b chat, new)
    | inr old ↦ omega (arith, next-subscribe b chat, h.older chat' ch old)
  ];
  one_chat = λ chat' chat'' ch m m'. elim (member-subscribe b chat chat' ch m) [
    | inl (same, new) ↦ elim (member-subscribe b chat chat'' ch m') [
      | inl (same', _) ↦ sym same ∙ same'
      | inr old ↦ absurd (omega (arith, h.older chat'' ch old, new))
    ]
    | inr old ↦ elim (member-subscribe b chat chat'' ch m') [
      | inl (_, new) ↦ absurd (omega (arith, h.older chat' ch old, new))
      | inr old' ↦ h.one_chat chat' chat'' ch old old'
    ]
  ];
  bounded = λ ch c m. bounded-subscribe b chat ch c h m;
}

-- After a channel left, the subscribed channels are the others.
member-unsubscribe :
    (b : Bus) (chat chat' : ℤ) (ch ch' : ℕ)
    → Inv b
    → lookup ch (subs_of b chat) ≡ some tt
    → lookup ch' (subs_of (unsubscribe b chat ch) chat') ≡ some tt
    → (lookup ch' (subs_of b chat') ≡ some tt) × (ch ≢ ch')
member-unsubscribe b chat chat' ch ch' h member m = elim (Bool-cases (eq_ℤ chat chat')) [
  | inl here ↦
      let same = (eq_ℤ_iff chat chat').0 here in
      let left = (rw (subs_of-unsubscribe b chat chat' ch member, here) at m) in
      (
        subst (λ c. lookup ch' (subs_of b c) ≡ some tt) same
            (lookup-remove-some ch ch' tt (subs_of b chat) left),
        lookup-remove_ne ch ch' tt (subs_of b chat) left,
      )
  | inr elsewhere ↦
      let left = (rw (subs_of-unsubscribe b chat chat' ch member, elsewhere) at m) in
      (
        left,
        λ e. cc (
          elsewhere,
          (eq_ℤ_iff chat chat').1 (
              h.one_chat chat chat' ch member
                (subst (λ k. lookup k (subs_of b chat') ≡ some tt) (sym e) left)),
        ),
      )
]

lookup-close_channel :
    (ch ch' : ℕ) (channels : Map ℕ Channel)
    → ch ≢ ch'
    → lookup ch' (close_channel ch channels) ≡ lookup ch' channels
lookup-close_channel ch ch' channels ne = elim (Option-cases (lookup ch channels)) [
  | inl missing ↦ rw (missing, close_channel)
  | inr (c, found) ↦
      rw (found, close_channel)
        (ground (arith, lookup-insert ch ch' (record c { closed = true }) channels, ==_iff ch ch'))
]

pub lookup-close_channel_self :
    (ch : ℕ) (channels : Map ℕ Channel) (c : Channel)
    → lookup ch channels ≡ some c
    → lookup ch (close_channel ch channels) ≡ some (record c { closed = true })
lookup-close_channel_self ch channels c found =
    rw (found, close_channel) (lookup-insert_self ch (record c { closed = true }) channels)

bounded-close_channel :
    (ch ch' : ℕ) (channels : Map ℕ Channel) (c : Channel)
    → ((k : ℕ) (d : Channel) → lookup k channels ≡ some d → length d.buffer ≤ d.capacity)
    → lookup ch' (close_channel ch channels) ≡ some c
    → length c.buffer ≤ c.capacity
bounded-close_channel ch ch' channels c h m = elim (Option-cases (lookup ch channels)) [
  | inl missing ↦ h ch' c (rw (missing, close_channel) at m)
  | inr (d, found) ↦
      elim (lookup-insert_cases ch ch' _ c channels (rw (found, close_channel) at m)) [
        | inl (_, new) ↦ rw (← new) (h ch d found)
        | inr old ↦ h ch' c old
      ]
]

next-unsubscribe : (b : Bus) (chat : ℤ) (ch : ℕ) → (unsubscribe b chat ch).next ≡ b.next
unfolding unsubscribe
next-unsubscribe b chat ch = ground arith

leave-Inv :
    (b : Bus) (chat : ℤ) (ch : ℕ)
    → lookup ch (subs_of b chat) ≡ some tt
    → Inv b
    → Inv (unsubscribe b chat ch)
leave-Inv b chat ch member h = record {
  distinct = λ chat'.
      rw (subs_of-unsubscribe b chat chat' ch member) (elim (Bool-cases (eq_ℤ chat chat')) [
        | inl here ↦ rw here (remove-IsMap ch (subs_of b chat) (h.distinct chat))
        | inr elsewhere ↦ rw elsewhere (h.distinct chat')
      ]);
  opened = λ chat' ch' m.
      let (old, ne) = member-unsubscribe b chat chat' ch ch' h member m in
      rw (channels-unsubscribe b chat ch member, lookup-close_channel ch ch' b.channels ne)
        (h.opened chat' ch' old);
  older = λ chat' ch' m.
      let (old, ne) = member-unsubscribe b chat chat' ch ch' h member m in
      omega (arith, next-unsubscribe b chat ch, h.older chat' ch' old);
  one_chat = λ chat' chat'' ch' m m'.
      let (old, ne) = member-unsubscribe b chat chat' ch ch' h member m in
      let (old', ne') = member-unsubscribe b chat chat'' ch ch' h member m' in
      h.one_chat chat' chat'' ch' old old';
  bounded = λ ch' c m.
      bounded-close_channel ch ch' b.channels c h.bounded
        (rw (channels-unsubscribe b chat ch member) at m);
}

pub unit_some : (o : Option (Unit {0})) → (o ≡ none) ⊎ (o ≡ some tt)
unit_some none = inl refl
unit_some (some u) = inr refl

pub unsubscribe-Inv : (b : Bus) (chat : ℤ) (ch : ℕ) → Inv b → Inv (unsubscribe b chat ch)
unsubscribe-Inv b chat ch h = elim (unit_some (lookup ch (subs_of b chat))) [
  | inl absent ↦ rw (unsubscribe_absent b chat ch absent) h
  | inr member ↦ leave-Inv b chat ch member h
]
