-- ===== src/Messaging/Timeouts.antt =====
-- The requests that _process_timeouts of class Messaging gives up.
use blockchain_workshop.Prelude.{
  ℕ, [], ◌∷◌, ◌++◌, append_assoc, List, ◌≡◌, ◌≢◌, refl, sym, ap, ◌∙◌, inl, inr, Option, none,
  Action, Bytes, Text, All, ==-cases, ==_refl, if◌then◌else◌, leb, Bool-cases, arith, pair_Eq, ℕ_eq,
}
use mathlib.Core.List.{foldl}
use blockchain_workshop.Prelude.Dict.{Dict, lookup, remove}
use blockchain_workshop.Network.Address.{TcpAddress, TcpAddress_eq}
use blockchain_workshop.Messaging.{Messaging, safe_invoke, collect, invoke_all, process_timeouts}

abbrev Key : Type 0
Key = TcpAddress × ℕ

abbrev pub Table : Type 0 → Type 0
Table Handler = Dict (TcpAddress × ℕ) (ℕ × Handler)

module _ {Handler : Type 0} where
  -- A request stands once in the table.
  abbrev pub HasOnce : Table Handler → Type 0
  HasOnce [] = Unit
  HasOnce ((k, v) ∷ d) = (lookup k d ≡ none) × HasOnce d

  -- The requests that are over, with their connections, and those that are not.
  unfoldable pub over : ℕ → Table Handler → List (TcpAddress × Handler)
  over now [] = []
  over now ((k, (expire_at, h)) ∷ d) =
      let rest = over now d in if leb expire_at now then (k.0, h) ∷ rest else rest

  unfoldable pub waiting : ℕ → Table Handler → Table Handler
  waiting now [] = []
  waiting now ((k, (expire_at, h)) ∷ d) =
      let rest = waiting now d in if leb expire_at now then rest else (k, (expire_at, h)) ∷ rest

  -- None of the keys stands in the other table.
  abbrev Apart : Table Handler → Table Handler → Type 0
  Apart done = All (λ e. lookup e.0 done ≡ none)

  lookup-append :
      (k : Key) (xs ys : Table Handler) → lookup k xs ≡ none → lookup k (xs ++ ys) ≡ lookup k ys
  unfolding lookup
  lookup-append k [] ys e = refl
  lookup-append k ((j, v) ∷ xs) ys e = elim (==-cases j k) [
    | inl (_, t) ↦ absurd (ground (arith, e, t))
    | inr (_, t) ↦ rw t (lookup-append k xs ys (ground (arith, e, t)))
  ]

  remove-absent : (k : Key) (d : Table Handler) → lookup k d ≡ none → remove k d ≡ d
  unfolding lookup remove
  remove-absent k [] e = refl
  remove-absent k ((j, v) ∷ d) e = elim (==-cases j k) [
    | inl (_, t) ↦ absurd (ground (arith, e, t))
    | inr (_, t) ↦ rw t (ap (λ x. (j, v) ∷ x) (remove-absent k d (ground (arith, e, t))))
  ]

  remove-between :
      (k : Key) (v : ℕ × Handler) (done d : Table Handler)
      → lookup k done ≡ none
      → lookup k d ≡ none
      → remove k (done ++ (k, v) ∷ d) ≡ done ++ d
  unfolding lookup remove
  remove-between k v [] d e f = rw (==_refl k) (remove-absent k d f)
  remove-between k v ((j, w) ∷ done) d e f = elim (==-cases j k) [
    | inl (_, t) ↦ absurd (ground (arith, e, t))
    | inr (_, t) ↦ rw t (ap (λ x. (j, w) ∷ x) (remove-between k v done d (ground (arith, e, t)) f))
  ]

  other_absent : (j k : Key) (v : ℕ × Handler) → j ≢ k → lookup j ((k, v) ∷ []) ≡ none
  unfolding lookup
  other_absent j k v other = elim (==-cases k j) [
    | inl (e, _) ↦ absurd (other (sym e))
    | inr (_, t) ↦ rw t refl
  ]

  Apart-grown :
      (k : Key) (v : ℕ × Handler) (done d : Table Handler)
      → lookup k d ≡ none
      → Apart done d
      → Apart (done ++ (k, v) ∷ []) d
  unfolding lookup
  Apart-grown k v done [] e a = tt
  Apart-grown k v done ((j, w) ∷ d) e a = elim (==-cases j k) [
    | inl (_, t) ↦ absurd (ground (arith, e, t))
    | inr (other, t) ↦ (
      lookup-append j done ((k, v) ∷ []) a.0 ∙ other_absent j k v other,
      Apart-grown k v done d (ground (arith, e, t)) a.1,
    )
  ]

  -- Each handler is called with None, in order and whether those before it raised or not.
  unfoldable pub told_none :
      {W : Type 0}
      → (Handler → TcpAddress → Option Bytes → Action (Messaging Handler × W) (Unit {0}))
      → List (TcpAddress × Handler)
      → Messaging Handler × W
      → Messaging Handler × W
  told_none invoke calls s = foldl (λ t call. (invoke call.1 call.0 none t).1) s calls

  -- The loop over the items that are left, when `done` are those that stay.
  module _ {W : Type 0}
      (handler_of : Text
        → Option (TcpAddress → Bytes → Action (Messaging Handler × W) (Option Bytes)))
      (invoke : Handler → TcpAddress → Option Bytes → Action (Messaging Handler × W) (Unit {0}))
      (now : ℕ) where
    collects :
        (d done : Table Handler) (m : Messaging Handler)
        → HasOnce d
        → Apart done d
        → m.response_handlers ≡ done ++ d
        → collect handler_of invoke now d m
          ≡ (over now d, record m { response_handlers = done ++ waiting now d })
    unfolding collect over waiting
    collects [] done m once apart e = ap (λ t. ([], record m { response_handlers = t })) e
    collects ((k, (expire_at, h)) ∷ d) done m once apart e = elim (Bool-cases (leb expire_at now)) [
      | inl t ↦
          let m1 = record m { response_handlers = remove k m.response_handlers } in
          let e1 : m1.response_handlers ≡ done ++ d =
            ap (remove k) e ∙ remove-between k (expire_at, h) done d apart.0 once.0 in
          rw t (ap (λ r. ((k.0, h) ∷ r.0, r.1)) (collects d done m1 once.1 apart.1 e1))
      | inr t ↦
          let done1 = done ++ (k, (expire_at, h)) ∷ [] in
          let e1 : m.response_handlers ≡ done1 ++ d =
            e ∙ sym (append_assoc done ((k, (expire_at, h)) ∷ []) d) in
          rw t (
            collects d done1 m once.1 (Apart-grown k (expire_at, h) done d once.0 apart.1) e1
            ∙ ap (λ x. (over now d, record m { response_handlers = x }))
                (append_assoc done ((k, (expire_at, h)) ∷ []) (waiting now d)))
    ]

    invoke_all-told_none :
        (calls : List (TcpAddress × Handler)) (s : Messaging Handler × W)
        → invoke_all handler_of invoke calls s ≡ told_none invoke calls s
    unfolding invoke_all told_none safe_invoke
    invoke_all-told_none [] s = refl
    invoke_all-told_none ((conn, h) ∷ calls) s = invoke_all-told_none calls (invoke h conn none s).1

    empty-Apart : (d : Table Handler) → Apart [] d
    unfolding lookup
    empty-Apart [] = tt
    empty-Apart (x ∷ d) = (refl, empty-Apart d)

    -- When a request stands once in the table, as in every Python dict: the timeouts call each
    -- handler whose time is over once, with None and the connection of its request and in the
    -- order of the requests, also when one of them raises, and the first of them already finds a table from which all of these
    -- requests are gone and no other.
    pub process_timeouts_lem :
        (m : Messaging Handler) (w : W)
        → HasOnce m.response_handlers
        → process_timeouts handler_of invoke now (m, w)
          ≡ told_none invoke
              (over now m.response_handlers)
              (record m { response_handlers = waiting now m.response_handlers }, w)
    unfolding process_timeouts
    process_timeouts_lem m w once =
        ap (λ r. invoke_all handler_of invoke r.0 (r.1, w))
          (collects m.response_handlers [] m once (empty-Apart m.response_handlers) refl)
        ∙ invoke_all-told_none (over now m.response_handlers) _
