-- ===== src/Gossip/Once.antt =====
-- A gossip message is relayed once as long as its id is remembered, whatever the gossip layer does
-- in between: messages of any kind that arrive, broadcasts, and rounds of _cleanup_loop.
use blockchain_workshop.Prelude.{
  ℕ, ◌+◌, ◌≤◌, [], ◌∷◌, List, ◌≡◌, refl, ◌∙◌, inl, inr, Bool, true, false, none, some, ok, Action,
  Bytes, Text, All, drop, ◌==◌, arith, ltb, ==_refl, ==-cases, Bytes_eq, Bool-cases, bytes_eq_iff,
}
use blockchain_workshop.Prelude.Dict.{
  Dict, lookup, contains, insert, remove, lookup-insert, lookup-remove,
}
use blockchain_workshop.Prelude.Actions.{keeps_bind}
use blockchain_workshop.Gossip.{
  Gossip, Relay, is_seen, is_expired, expiry_time, mark_and_relay, message_id_of, message_id_len,
  truthy, broadcast, gossip_handler, forget, forget_all, expired_keys, cleanup_loop,
}
use blockchain_workshop.Gossip.Expiry.{HasKeysOnce, unless_expired, forget-expired}

-- What happens in the gossip layer of a node whose peers are `Peer`, with its time.
pub data Happening (Peer : Type 0) : Type 0 where
  arrival : ℕ → Text → Peer → Bytes → Happening Peer
  own_broadcast : ℕ → Bytes → Text → Bytes → Happening Peer
  cleanup : ℕ → Happening Peer

abbrev pub time_of : {Peer : Type 0} → Happening Peer → ℕ
time_of (arrival now kind peer payload) = now
time_of (own_broadcast now id kind payload) = now
time_of (cleanup now) = now

-- Ids may be added to the table, and none is taken out of it or gets another time.
abbrev pub HasAdded : {Peer : Type 0} → Gossip Peer → Gossip Peer → Type 0
HasAdded g g' =
    (HasKeysOnce g.seen_messages → HasKeysOnce g'.seen_messages)
    × ((h : Bytes) (t : ℕ) → lookup h g.seen_messages ≡ some t → lookup h g'.seen_messages ≡ some t)

-- The table has each id once, and the id with a time that is not before `since`.
abbrev IsRemembered : {Peer : Type 0} → Bytes → ℕ → Gossip Peer → Type 0
IsRemembered h since g =
    HasKeysOnce g.seen_messages × (t : ℕ) × (since ≤ t) × (lookup h g.seen_messages ≡ some t)

absent-insert :
    (k j : Bytes) (t : ℕ) (d : Dict Bytes ℕ)
    → (k == j) ≡ false
    → lookup j d ≡ none
    → lookup j (insert k t d) ≡ none
absent-insert k j t d other e = rw (lookup-insert k j t d, other) e

HasKeysOnce-insert :
    (k : Bytes) (t : ℕ) (d : Dict Bytes ℕ) → HasKeysOnce d → HasKeysOnce (insert k t d)
unfolding insert lookup
HasKeysOnce-insert k t [] once = (refl, tt)
HasKeysOnce-insert k t ((j, u) ∷ d) once = elim (==-cases j k) [
  | inl (same, e) ↦ rw e once
  | inr (_, e) ↦
      let e' : (k == j) ≡ false = ground (arith, bytes_eq_iff j k, bytes_eq_iff k j) in
      rw e (absent-insert k j t d e' once.0, HasKeysOnce-insert k t d once.1)
]

HasKeysOnce-remove : (k : Bytes) (d : Dict Bytes ℕ) → HasKeysOnce d → HasKeysOnce (remove k d)
unfolding remove
HasKeysOnce-remove k [] once = tt
HasKeysOnce-remove k ((j, u) ∷ d) once = elim (Bool-cases (j == k)) [
  | inl e ↦ rw e (HasKeysOnce-remove k d once.1)
  | inr e ↦ rw e (
    lookup-remove k j d ∙ ground (arith, bytes_eq_iff j k, bytes_eq_iff k j, once.0),
    HasKeysOnce-remove k d once.1,
  )
]

module _ {Peer : Type 0} where
  forget-HasKeysOnce :
      (k : Bytes) (g : Gossip Peer)
      → HasKeysOnce g.seen_messages
      → HasKeysOnce (forget k g).1.seen_messages
  unfolding forget
  forget-HasKeysOnce k g once = elim (Bool-cases (contains k g.seen_messages)) [
    | inl e ↦ rw (HasKeysOnce, e) (HasKeysOnce-remove k g.seen_messages once)
    | inr e ↦ rw (HasKeysOnce, e) once
  ]

  forget_all-HasKeysOnce :
      (ks : List Bytes) (g : Gossip Peer)
      → HasKeysOnce g.seen_messages
      → HasKeysOnce (forget_all ks g).1.seen_messages
  unfolding forget_all
  forget_all-HasKeysOnce [] g once = once
  forget_all-HasKeysOnce (k ∷ ks) g once =
      let first = forget-HasKeysOnce k g once in
      keeps_bind (λ (x : Gossip Peer). HasKeysOnce x.seen_messages) (λ _. forget_all ks) (forget k)
        g first (λ _ _. forget_all-HasKeysOnce ks _ first)

  mark-IsRemembered :
      (h id : Bytes) (since now : ℕ) (r : Relay Peer) (g : Gossip Peer)
      → since ≤ now
      → IsRemembered h since g
      → IsRemembered h since (mark_and_relay now id r g)
  unfolding mark_and_relay
  mark-IsRemembered h id since now r g le (once, t, young, e) = elim (Bool-cases (id == h)) [
    | inl same ↦ (
      HasKeysOnce-insert id now g.seen_messages once,
      now,
      le,
      rw (lookup-insert id h now g.seen_messages, same) refl,
    )
    | inr other ↦ (
      HasKeysOnce-insert id now g.seen_messages once,
      t,
      young,
      rw (lookup-insert id h now g.seen_messages, other) e,
    )
  ]

  cleanup-IsRemembered :
      (h : Bytes) (since now : ℕ) (g : Gossip Peer)
      → now ≤ since + expiry_time
      → IsRemembered h since g
      → IsRemembered h since (cleanup_loop now g).1
  unfolding cleanup_loop unless_expired is_expired
  cleanup-IsRemembered h since now g le (once, t, young, e) =
      let (_, kept) = forget-expired now g h once in
      let recent : ltb (t + expiry_time) now ≡ false = ground arith in
      (
        forget_all-HasKeysOnce (expired_keys now g.seen_messages) g once,
        t,
        young,
        kept ∙ rw (e, recent) refl,
      )

  broadcast-IsRemembered :
      (h id : Bytes) (since now : ℕ) (kind : Text) (payload : Bytes) (g : Gossip Peer)
      → since ≤ now
      → IsRemembered h since g
      → IsRemembered h since (broadcast now id kind payload g)
  unfolding broadcast
  broadcast-IsRemembered h id since now kind payload g le r = elim (Bool-cases (is_seen id g)) [
    | inl e ↦ rw e r
    | inr e ↦ rw e (mark-IsRemembered h id since now _ g le r)
  ]

  seen_of_IsRemembered :
      (h : Bytes) (since : ℕ) (g : Gossip Peer) → IsRemembered h since g → is_seen h g ≡ true
  unfolding is_seen contains
  seen_of_IsRemembered h since g (once, t, young, e) = ground (arith, e)

  -- What the handlers of the node do to the gossip layer is such a broadcast.
  pub broadcast-HasAdded :
      (now : ℕ) (id : Bytes) (kind : Text) (payload : Bytes) (g : Gossip Peer)
      → HasAdded g (broadcast now id kind payload g)
  unfolding broadcast mark_and_relay is_seen contains
  broadcast-HasAdded now id kind payload g = elim (Bool-cases (is_seen id g)) [
    | inl e ↦ rw e (λ once. once, λ h t here. here)
    | inr e ↦ rw e (
      λ once. HasKeysOnce-insert id now g.seen_messages once,
      λ h t here.
          ground (arith, here, e, lookup-insert id h now g.seen_messages, bytes_eq_iff id h),
    )
  ]

  handler_skips :
      {W : Type 0} (kind : Text) (handler : Peer → Bytes → Action (Gossip Peer × W) Bool) (now : ℕ)
      (peer : Peer) (payload : Bytes) (s : Gossip Peer × W)
      → is_seen (message_id_of payload) s.0 ≡ true
      → gossip_handler kind handler now peer payload s ≡ s
  unfolding gossip_handler
  handler_skips kind handler now peer payload s h = rw h refl

  -- The handlers of a node, one for each kind; they forget no id.
  module _ {W : Type 0} (handlers : Text → Peer → Bytes → Action (Gossip Peer × W) Bool)
      (handlers_add : (kind : Text) (peer : Peer) (text : Bytes) (s : Gossip Peer × W)
        → HasAdded s.0 (handlers kind peer text s).1.0) where
    handler-IsRemembered :
        (h : Bytes) (since : ℕ) (kind : Text) (peer : Peer) (text : Bytes) (s : Gossip Peer × W)
        → IsRemembered h since s.0
        → IsRemembered h since (handlers kind peer text s).1.0
    handler-IsRemembered h since kind peer text s (once, t, young, e) =
        let (keeps_once, keeps) = handlers_add kind peer text s in
        (keeps_once once, t, young, keeps h t e)

    handled :
        (now : ℕ) (kind : Text) (peer : Peer) (payload : Bytes) (h : Bytes) (since : ℕ)
        (s : Gossip Peer × W)
        → since ≤ now
        → IsRemembered h since s.0
        → IsRemembered h since (gossip_handler kind (handlers kind) now peer payload s).0
    unfolding gossip_handler
    handled now kind peer payload h since s le r =
        let after = handler-IsRemembered h since kind peer (drop message_id_len payload) s r in
        elim (Bool-cases (is_seen (message_id_of payload) s.0)) [
          | inl e ↦ rw e r
          | inr e ↦
              elim (Bool-cases (truthy (handlers kind peer (drop message_id_len payload) s).0)) [
                | inl t ↦
                    rw (e, t) (mark-IsRemembered h (message_id_of payload) since now _ _ le after)
                | inr t ↦ rw (e, t) after
              ]
        ]

    unfoldable pub happen : Happening Peer → Gossip Peer × W → Gossip Peer × W
    happen (arrival now kind peer payload) s =
        gossip_handler kind (handlers kind) now peer payload s
    happen (own_broadcast now id kind payload) s = (broadcast now id kind payload s.0, s.1)
    happen (cleanup now) s = ((cleanup_loop now s.0).1, s.1)

    unfoldable pub happen_all : List (Happening Peer) → Gossip Peer × W → Gossip Peer × W
    happen_all [] s = s
    happen_all (x ∷ xs) s = happen_all xs (happen x s)

    -- While an id that was seen at the time `since` cannot expire.
    abbrev pub IsWithin : ℕ → Happening Peer → Type 0
    IsWithin since x = (since ≤ time_of x) × (time_of x ≤ since + expiry_time)

    happen-IsRemembered :
        (h : Bytes) (since : ℕ) (x : Happening Peer) (s : Gossip Peer × W)
        → IsWithin since x
        → IsRemembered h since s.0
        → IsRemembered h since (happen x s).0
    unfolding happen
    happen-IsRemembered h since (arrival now kind peer payload) s w r =
        handled now kind peer payload h since s w.0 r
    happen-IsRemembered h since (own_broadcast now id kind payload) s w r =
        broadcast-IsRemembered h id since now kind payload s.0 w.0 r
    happen-IsRemembered h since (cleanup now) s w r = cleanup-IsRemembered h since now s.0 w.1 r

    happen_all-IsRemembered :
        (h : Bytes) (since : ℕ) (xs : List (Happening Peer)) (s : Gossip Peer × W)
        → All (IsWithin since) xs
        → IsRemembered h since s.0
        → IsRemembered h since (happen_all xs s).0
    unfolding happen_all
    happen_all-IsRemembered h since [] s w r = r
    happen_all-IsRemembered h since (x ∷ xs) s w r =
        happen_all-IsRemembered h since xs (happen x s) w.1 (happen-IsRemembered h since x s w.0 r)

    accepted-IsRemembered :
        (now : ℕ) (kind : Text) (peer : Peer) (payload : Bytes) (s : Gossip Peer × W)
        → HasKeysOnce s.0.seen_messages
        → is_seen (message_id_of payload) s.0 ≡ false
        → (handlers kind peer (drop message_id_len payload) s).0 ≡ ok true
        → IsRemembered
            (message_id_of payload)
            now
            (gossip_handler kind (handlers kind) now peer payload s).0
    unfolding gossip_handler mark_and_relay
    accepted-IsRemembered now kind peer payload s once fresh e =
        let s' = (handlers kind peer (drop message_id_len payload) s).1 in
        let id = message_id_of payload in
        rw (fresh, e)
          (
            HasKeysOnce-insert id now s'.0.seen_messages
                ((handlers_add kind peer (drop message_id_len payload) s).0 once),
            now,
            omega arith,
            rw (lookup-insert id id now s'.0.seen_messages, ==_refl id) refl,
          )

    -- The table of the ids has each id once, and the handlers of the node take no id out of it nor
    -- change its time. A message with a new id arrives at the time `now`, and its handler accepts
    -- it. Then messages of any kind arrive, broadcasts are made and _cleanup_loop runs, all of it
    -- from `now` to the end of the expiry time of 300 seconds. When behind all this a message with the
    -- same id arrives, of whatever kind, from whatever peer and with whatever text, it neither
    -- reaches its handler nor is relayed, and nothing changes.
    pub gossip_handler_once :
        (now later : ℕ) (kind kind' : Text) (peer peer' : Peer) (payload again : Bytes)
        (xs : List (Happening Peer)) (s : Gossip Peer × W)
        → HasKeysOnce s.0.seen_messages
        → is_seen (message_id_of payload) s.0 ≡ false
        → (handlers kind peer (drop message_id_len payload) s).0 ≡ ok true
        → All (IsWithin now) xs
        → message_id_of again ≡ message_id_of payload
        → let s' = happen_all xs (gossip_handler kind (handlers kind) now peer payload s) in
          gossip_handler kind' (handlers kind') later peer' again s' ≡ s'
    gossip_handler_once now later kind kind' peer peer' payload again xs s once fresh e within
          same =
        let s1 = gossip_handler kind (handlers kind) now peer payload s in
        let first = accepted-IsRemembered now kind peer payload s once fresh e in
        let still = happen_all-IsRemembered (message_id_of payload) now xs s1 within first in
        handler_skips kind' (handlers kind') later peer' again (happen_all xs s1)
          (rw same (seen_of_IsRemembered (message_id_of payload) now _ still))
