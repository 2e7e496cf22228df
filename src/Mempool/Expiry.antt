-- ===== src/Mempool/Expiry.antt =====
-- _cleanup_loop drops exactly the transactions that were last seen more than a minute ago.
use blockchain_workshop.Prelude.{
  ℕ, ◌+◌, ◌*◌, [], ◌∷◌, ◌≡◌, refl, sym, ap, ◌∙◌, ==_refl, ◌||◌, Bool, true, false, ◌&&◌, none, some,
  Result, ok, Bytes, arith, ltb, ◌==◌, bytes_eq_iff, if◌then◌else◌, Bytes_eq,
}
use blockchain_workshop.Prelude.Dict.{
  Dict, values, lookup, remove, contains, subscript, lookup-remove, some_of_contains,
}
use blockchain_workshop.Crypto.{Crypto}
use blockchain_workshop.Types.Transaction
use blockchain_workshop.Types.Transaction.{Transaction}
use blockchain_workshop.Mempool.{
  Mempool, evict_transaction, expire, expire_all, cleanup_loop, get_transactions, second,
}
use blockchain_workshop.Mempool.Invariant.{IsFiled, IsValid}

-- The hash was last seen more than a minute before.
unfoldable pub is_stale : ℕ → Mempool → Bytes → Bool
is_stale now m h = elim (lookup h m.last_seen) [ none ↦ false | some t ↦ ltb (t + 60 * second) now ]

-- `m'` is `m` without the stale entries among the keys of `d`.
record IsCleaned (now : ℕ) (d : Dict Bytes Transaction) (m m' : Mempool) : Type 0 where
  transactions :
      (h : Bytes)
      → lookup h m'.transactions
        ≡ (if contains h d && is_stale now m h then none else lookup h m.transactions)
  last_seen :
      (h : Bytes)
      → lookup h m'.last_seen
        ≡ (if contains h d && is_stale now m h then none else lookup h m.last_seen)

-- The pool behind one round of the loop, on a transaction with hash `h`.
dropped : ℕ → Mempool → Bytes → Mempool
dropped now m h =
    if is_stale now m h
    then record { transactions = remove h m.transactions; last_seen = remove h m.last_seen }
    else m

module _ (now : ℕ) (m : Mempool) (h : Bytes) (j : Bytes) where
  transactions-dropped :
      lookup j (dropped now m h).transactions
      ≡ (if (h == j) && is_stale now m h then none else lookup j m.transactions)
  unfolding dropped
  transactions-dropped = ground (arith, lookup-remove h j m.transactions)

  last_seen-dropped :
      lookup j (dropped now m h).last_seen
      ≡ (if (h == j) && is_stale now m h then none else lookup j m.last_seen)
  unfolding dropped
  last_seen-dropped = ground (arith, lookup-remove h j m.last_seen)

  -- The other transactions of the loop still have a time.
  still_seen :
      (d : Dict Bytes Transaction)
      → lookup h d ≡ none
      → contains j d ≡ true
      → contains j m.last_seen ≡ true
      → contains j (dropped now m h).last_seen ≡ true
  unfolding contains
  still_seen d absent there seen = ground (arith, last_seen-dropped, bytes_eq_iff h j)

  is_stale-dropped :
      (d : Dict Bytes Transaction)
      → lookup h d ≡ none
      → (contains j d && is_stale now (dropped now m h) j) ≡ (contains j d && is_stale now m j)
  unfolding contains is_stale
  is_stale-dropped d absent = ground (arith, last_seen-dropped, bytes_eq_iff h j)

  contains-cons :
      (tx : Transaction) (d : Dict Bytes Transaction)
      → contains j ((h, tx) ∷ d) ≡ ((h == j) || contains j d)
  unfolding contains lookup
  contains-cons tx d = ground arith

IsCleaned-cons :
    (now : ℕ) (h : Bytes) (tx : Transaction) (d : Dict Bytes Transaction) (m m' : Mempool)
    → lookup h d ≡ none
    → IsCleaned now d (dropped now m h) m'
    → IsCleaned now ((h, tx) ∷ d) m m'
IsCleaned-cons now h tx d m m' absent cl = record {
  transactions = λ j. ground (
    arith,
    cl.transactions j,
    transactions-dropped now m h j,
    is_stale-dropped now m h j d absent,
    contains-cons now m h j tx d,
    bytes_eq_iff h j,
  );
  last_seen = λ j. ground (
    arith,
    cl.last_seen j,
    last_seen-dropped now m h j,
    is_stale-dropped now m h j d absent,
    contains-cons now m h j tx d,
    bytes_eq_iff h j,
  );
}

absent_transactions :
    (now : ℕ) (m : Mempool) (h : Bytes)
    → (if contains h m.transactions && is_stale now m h then none else lookup h m.transactions)
      ≡ (if is_stale now m h then none else lookup h m.transactions)
unfolding contains
absent_transactions now m h = ground arith

absent_times :
    (now : ℕ) (m : Mempool) (h : Bytes)
    → contains h m.transactions ≡ contains h m.last_seen
    → (if contains h m.transactions && is_stale now m h then none else lookup h m.last_seen)
      ≡ (if is_stale now m h then none else lookup h m.last_seen)
unfolding contains
absent_times now m h e = ground arith

IsCleaned-refl : (now : ℕ) (m : Mempool) → IsCleaned now [] m m
unfolding contains lookup
IsCleaned-refl now m = record { transactions = λ h. refl; last_seen = λ h. refl }

module _ ⦃c : Crypto⦄ (now : ℕ) where
  -- A round of the loop, on a transaction that is filed under its hash and was seen.
  expire_lem :
      (tx : Transaction) (m : Mempool) (h : Bytes) (t : ℕ)
      → Transaction.hash tx ≡ ok h
      → lookup h m.last_seen ≡ some t
      → expire now tx m ≡ (ok tt, dropped now m h)
  unfolding expire evict_transaction is_stale subscript dropped
  expire_lem tx m h t e seen = ground arith

  -- The loop over any part of the filed transactions, all of which were seen.
  expire_all-IsCleaned :
      (d : Dict Bytes Transaction) (m : Mempool)
      → IsFiled d
      → ((h : Bytes) → contains h d ≡ true → contains h m.last_seen ≡ true)
      → (m' : Mempool) × (expire_all now (values d) m ≡ (ok tt, m')) × IsCleaned now d m m'
  unfolding expire_all values
  expire_all-IsCleaned [] m f seen = (m, refl, IsCleaned-refl now m)
  expire_all-IsCleaned ((h, tx) ∷ d) m f seen =
      let (t, e) =
        some_of_contains h m.last_seen (seen h (rw (contains-cons now m h h tx d, ==_refl))) in
      let rest_seen : (j : Bytes)
          → contains j d ≡ true
          → contains j (dropped now m h).last_seen ≡ true =
        λ j there.
          still_seen now m h j d f.1 there
            (seen j (ground (arith, contains-cons now m h j tx d))) in
      let (m', run, cleaned) = expire_all-IsCleaned d (dropped now m h) f.2 rest_seen in
      (
        m',
        ground (arith, expire_lem tx m h t f.0 e, run),
        IsCleaned-cons now h tx d m m' f.1 cleaned,
      )

  -- On a valid pool the cleanup returns, and drops exactly the stale transactions and their times:
  -- those last seen more than a minute before.
  pub cleanup_loop_lem :
      (m : Mempool) (h : Bytes)
      → IsValid m
      → ((cleanup_loop now m).0 ≡ ok tt)
        × (lookup h (cleanup_loop now m).1.transactions
            ≡ (if is_stale now m h then none else lookup h m.transactions))
        × (lookup h (cleanup_loop now m).1.last_seen
            ≡ (if is_stale now m h then none else lookup h m.last_seen))
  unfolding cleanup_loop get_transactions
  cleanup_loop_lem m h v =
      let (m', run, cl) =
        expire_all-IsCleaned m.transactions m v.filed (λ j there. v.seen j ∙ there) in
      let there : contains h m.transactions ≡ contains h m.last_seen = sym (v.seen h) in
      (
        ap (λ (p : Result Unit × Mempool). p.0) run,
        rw run (cl.transactions h ∙ absent_transactions now m h),
        rw run (cl.last_seen h ∙ absent_times now m h there),
      )
