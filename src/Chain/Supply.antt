-- ===== src/Chain/Supply.antt =====
-- The sum of all balances.
use blockchain_workshop.Prelude.{
  [], ◌∷◌, ◌≡◌, inl, inr, ◌∙◌, none, Bytes, arith, bytes_eq_iff, Bytes_eq,
}
use blockchain_workshop.Prelude.Int.{ℤ, pos, ◌+ℤ◌, ◌-ℤ◌, ◌≤ℤ◌, int_laws}
use blockchain_workshop.Prelude.Dict.{Dict, lookup, get_or, insert, setdefault}
use blockchain_workshop.Crypto.{Crypto}
use blockchain_workshop.Types.Transaction.{Transaction}
use blockchain_workshop.Chain.State.{
  BlockchainState, default_accounts, apply_transaction, balance_of,
}
use blockchain_workshop.Chain.Transfer.{
  moved, apply_transaction_states, apply_transaction_cases, apply_transaction-IsMoved,
}

unfoldable pub total : Dict Bytes ℤ → ℤ
total [] = pos 0
total ((k, v) ∷ d) = v +ℤ total d

abbrev pub supply : BlockchainState → ℤ
supply s = total s.balances

pub total-insert :
    (k : Bytes) (v : ℤ) (d : Dict Bytes ℤ)
    → total (insert k v d) +ℤ get_or k (pos 0) d ≡ total d +ℤ v
unfolding total insert get_or lookup
total-insert k v [] = omega int_laws
total-insert k v ((j, w) ∷ d) = grind (int_laws, total-insert k v d)

get_or_absent : (k : Bytes) (d : Dict Bytes ℤ) → lookup k d ≡ none → get_or k (pos 0) d ≡ pos 0
unfolding get_or
get_or_absent k d h = ground arith

total-setdefault : (k : Bytes) (d : Dict Bytes ℤ) → total (setdefault k (pos 0) d) ≡ total d
unfolding setdefault
total-setdefault k d = grind (int_laws, get_or_absent k d, total-insert k (pos 0) d)

supply-moved : (tx : Transaction) (s : BlockchainState) → supply (moved tx s) ≡ supply s
supply-moved tx s =
    let from = get_or tx.sender (pos 0) s.balances in
    let paid = insert tx.sender (from -ℤ tx.amount) s.balances in
    let to = get_or tx.receiver (pos 0) paid in
    grind (
      int_laws,
      total-insert tx.sender (from -ℤ tx.amount) s.balances,
      total-insert tx.receiver (to +ℤ tx.amount) paid,
    )

supply-default_accounts :
    (tx : Transaction) (s : BlockchainState) → supply (default_accounts tx s) ≡ supply s
supply-default_accounts tx s = total-setdefault tx.receiver _ ∙ total-setdefault tx.sender _

-- The sum of all balances is the same behind _apply_transaction, whatever the transaction is and
-- however that ends.
pub supply-apply_transaction :
    ⦃c : Crypto⦄ (tx : Transaction) (s : BlockchainState)
    → supply (apply_transaction tx s).1 ≡ supply s
supply-apply_transaction tx s = elim (apply_transaction_states tx s) [
  | inl same ↦ rw same
  | inr (inl defaulted) ↦ rw defaulted (supply-default_accounts tx s)
  | inr (inr paid) ↦
      rw paid (supply-moved tx (default_accounts tx s) ∙ supply-default_accounts tx s)
]

-- No account is overdrawn.
abbrev pub IsSolvent : BlockchainState → Type 0
IsSolvent s = (a : Bytes) → pos 0 ≤ℤ balance_of s a

-- A transaction overdraws no account.
pub apply_transaction-IsSolvent :
    ⦃c : Crypto⦄ (tx : Transaction) (s : BlockchainState)
    → IsSolvent s
    → IsSolvent (apply_transaction tx s).1
apply_transaction-IsSolvent tx s h a = elim (apply_transaction_cases tx s) [
  | inl (ok', acceptable) ↦
      let moved_to = apply_transaction-IsMoved tx s acceptable in
      grind (
        int_laws,
        moved_to.balances a,
        h a,
        acceptable.covered,
        acceptable.nonneg,
        bytes_eq_iff tx.sender a,
      )
  | inr (_, view) ↦ rw (view.balances a) (h a)
]
