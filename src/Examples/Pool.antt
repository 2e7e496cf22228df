-- ===== src/Examples/Pool.antt =====
-- The pool at concrete inputs.
use blockchain_workshop.Prelude.{
  ◌*◌, ◌&&◌, none, some, [], ◌∷◌, ◌≡◌, refl, true, ok, err, Bytes, ◌==◌, if◌then◌else◌, Bytes_eq,
}
use blockchain_workshop.Prelude.Dict.{lookup}
use blockchain_workshop.Types.Transaction
use blockchain_workshop.Mempool.{Mempool, new, add_transaction, handle_new_tx, cleanup_loop, second}
use blockchain_workshop.Mempool.Invariant.{IsValid, add_transaction-IsValid, handle_new_tx_lem}
use blockchain_workshop.Mempool.Expiry.{is_stale, cleanup_loop_lem}
use blockchain_workshop.Examples.World.{toy, tx, late_tx, executable}

new-IsValid : IsValid new
unfolding executable
new-IsValid = record { filed = tt; seen = λ h. refl }

abbrev pool : Mempool
pool = (add_transaction (5 * second) tx new).1

pool-IsValid : IsValid pool
pool-IsValid = add_transaction-IsValid (5 * second) tx new new-IsValid

abbrev message : Bytes
message = elim (Transaction.serialize late_tx) [ ok s ↦ s | err e ↦ [] ]

parsed : Transaction.deserialize message ≡ ok late_tx
unfolding executable
parsed = refl

signed : Transaction.validate_signature late_tx ≡ ok true
unfolding executable
signed = refl

handle_new_tx_lem_example :
    (h : Bytes) × (Transaction.hash late_tx ≡ ok h)
    × ((handle_new_tx (9 * second) message pool).0 ≡ ok true)
    × (lookup (1 ∷ []) (handle_new_tx (9 * second) message pool).1.transactions
        ≡ (if true && (h == (1 ∷ [])) then some late_tx else lookup (1 ∷ []) pool.transactions))
handle_new_tx_lem_example =
    handle_new_tx_lem (9 * second) message pool late_tx true (1 ∷ []) parsed signed

cleanup_loop_lem_example :
    ((cleanup_loop (66 * second) pool).0 ≡ ok tt)
    × (lookup (1 ∷ []) (cleanup_loop (66 * second) pool).1.transactions ≡ (
        if is_stale (66 * second) pool (1 ∷ []) then none else lookup (1 ∷ []) pool.transactions))
    × (lookup (1 ∷ []) (cleanup_loop (66 * second) pool).1.last_seen
        ≡ (if is_stale (66 * second) pool (1 ∷ []) then none else lookup (1 ∷ []) pool.last_seen))
cleanup_loop_lem_example = cleanup_loop_lem (66 * second) pool (1 ∷ []) pool-IsValid

-- A minute and a second after it was seen the transaction is dropped.
dropped : (cleanup_loop (66 * second) pool).1 ≡ new
unfolding executable
dropped = refl
