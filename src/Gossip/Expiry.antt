-- ===== src/Gossip/Expiry.antt =====
-- _cleanup_loop of the gossip layer forgets exactly the ids that are older than the expiry time.
use blockchain_workshop.Prelude.{
  ℕ, [], ◌∷◌, ◌≡◌, refl, ◌∙◌, inl, inr, true, false, Option, none, some, ok, Bytes, arith, ==_refl,
  if◌then◌else◌, bytes_eq_iff, Bytes_eq, Bool-cases,
}
use blockchain_workshop.Prelude.Dict.{Dict, lookup, contains, remove, lookup-remove}
use blockchain_workshop.Prelude.Actions.{>>=-eq-returned}
use blockchain_workshop.Gossip.{Gossip, is_expired, expired_keys, forget, forget_all, cleanup_loop}

-- Each id stands once, as in every Python dict.
abbrev pub HasKeysOnce : Dict Bytes ℕ → Type 0
HasKeysOnce [] = Unit
HasKeysOnce ((k, t) ∷ d) = (lookup k d ≡ none) × HasKeysOnce d

-- What is left of a time that was looked up.
unfoldable pub unless_expired : ℕ → Option ℕ → Option ℕ
unless_expired now none = none
unless_expired now (some t) = if is_expired now t then none else some t

merge :
    (now : ℕ) (h : Bytes) (d : Dict Bytes ℕ)
    → (if contains h d then unless_expired now (lookup h d) else lookup h d)
      ≡ unless_expired now (lookup h d)
unfolding contains unless_expired
merge now h d = ground arith

module _ {Peer : Type 0} (now : ℕ) where
  -- `g'` is `g` without the expired ids of `d`.
  abbrev IsCleaned : Dict Bytes ℕ → Gossip Peer → Gossip Peer → Type 0
  IsCleaned d g g' =
      (h : Bytes)
      → lookup h g'.seen_messages
        ≡ (if contains h d then unless_expired now (lookup h d) else lookup h g.seen_messages)

  -- The entries of `d` are still in the table.
  abbrev Agrees : Dict Bytes ℕ → Gossip Peer → Type 0
  Agrees d g = (h : Bytes) → contains h d ≡ true → lookup h g.seen_messages ≡ lookup h d

  forget_lem :
      (k : Bytes) (g : Gossip Peer)
      → contains k g.seen_messages ≡ true
      → forget k g ≡ (ok tt, record g { seen_messages = remove k g.seen_messages })
  unfolding forget
  forget_lem k g e = rw e refl

  Agrees-remove :
      (k : Bytes) (t : ℕ) (d : Dict Bytes ℕ) (g : Gossip Peer)
      → lookup k d ≡ none
      → Agrees ((k, t) ∷ d) g
      → Agrees d (record g { seen_messages = remove k g.seen_messages })
  unfolding contains lookup
  Agrees-remove k t d g absent a h e =
      ground (arith, lookup-remove k h g.seen_messages, bytes_eq_iff k h, a h)

  Agrees-tail :
      (k : Bytes) (t : ℕ) (d : Dict Bytes ℕ) (g : Gossip Peer)
      → lookup k d ≡ none
      → Agrees ((k, t) ∷ d) g
      → Agrees d g
  unfolding contains lookup
  Agrees-tail k t d g absent a h e = ground (arith, bytes_eq_iff k h, a h)

  there :
      (k : Bytes) (t : ℕ) (d : Dict Bytes ℕ) (g : Gossip Peer)
      → Agrees ((k, t) ∷ d) g
      → lookup k g.seen_messages ≡ some t
  unfolding contains lookup
  there k t d g a = ground (arith, a k, ==_refl k)

  there_contains :
      (k : Bytes) (t : ℕ) (d : Dict Bytes ℕ) (g : Gossip Peer)
      → Agrees ((k, t) ∷ d) g
      → contains k g.seen_messages ≡ true
  unfolding contains
  there_contains k t d g a = ground (arith, there k t d g a)

  IsCleaned-dropped :
      (k : Bytes) (t : ℕ) (d : Dict Bytes ℕ) (g g' : Gossip Peer)
      → is_expired now t ≡ true
      → lookup k d ≡ none
      → IsCleaned d (record g { seen_messages = remove k g.seen_messages }) g'
      → IsCleaned ((k, t) ∷ d) g g'
  unfolding contains lookup unless_expired
  IsCleaned-dropped k t d g g' e absent c h =
      ground (arith, c h, lookup-remove k h g.seen_messages, bytes_eq_iff k h)

  IsCleaned-kept :
      (k : Bytes) (t : ℕ) (d : Dict Bytes ℕ) (g g' : Gossip Peer)
      → is_expired now t ≡ false
      → lookup k d ≡ none
      → lookup k g.seen_messages ≡ some t
      → IsCleaned d g g'
      → IsCleaned ((k, t) ∷ d) g g'
  unfolding contains lookup unless_expired
  IsCleaned-kept k t d g g' e absent here c h = ground (arith, c h, bytes_eq_iff k h)

  cleaned :
      (d : Dict Bytes ℕ) (g : Gossip Peer)
      → HasKeysOnce d
      → Agrees d g
      → ((forget_all (expired_keys now d) g).0 ≡ ok tt)
        × IsCleaned d g (forget_all (expired_keys now d) g).1
  unfolding expired_keys forget_all
  cleaned [] g once a = (refl, λ h. unfold contains lookup in refl)
  cleaned ((k, t) ∷ d) g once a = elim (Bool-cases (is_expired now t)) [
    | inl e ↦
        let g1 = record g { seen_messages = remove k g.seen_messages } in
        let (r, c) = cleaned d g1 once.1 (Agrees-remove k t d g once.0 a) in
        let first = forget_lem k g (there_contains k t d g a) in
        rw e (
          rw (>>=-eq-returned (forget k) (λ _. forget_all (expired_keys now d)) g first)
            (r, IsCleaned-dropped k t d g (forget_all (expired_keys now d) g1).1 e once.0 c))
    | inr e ↦
        let (r, c) = cleaned d g once.1 (Agrees-tail k t d g once.0 a) in
        rw e (
          r,
          IsCleaned-kept k t d g (forget_all (expired_keys now d) g).1 e once.0 (there k t d g a) c,
        )
  ]

  -- On a table in which each id stands once, the cleanup does not raise; it forgets the ids that
  -- were seen more than the expiry time ago, and keeps the other ids with their times.
  pub forget-expired :
      (g : Gossip Peer) (h : Bytes)
      → HasKeysOnce g.seen_messages
      → ((cleanup_loop now g).0 ≡ ok tt)
        × (lookup h (cleanup_loop now g).1.seen_messages
            ≡ unless_expired now (lookup h g.seen_messages))
  unfolding cleanup_loop
  forget-expired g h once =
      let (r, c) = cleaned g.seen_messages g once (λ k e. refl) in
      (r, c h ∙ merge now h g.seen_messages)
