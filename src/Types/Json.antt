-- ===== src/Types/Json.antt =====
-- to_json of blocks and transactions: the dictionaries that the command line prints.
use blockchain_workshop.Prelude.{[], ◌∷◌, List, Result, ok, ◌>>=◌, Text}
use blockchain_workshop.Prelude.Int.{ℤ}
use blockchain_workshop.Text.Hex.{hex}
use blockchain_workshop.Crypto.{Crypto}
use blockchain_workshop.Types.Transaction
use blockchain_workshop.Types.Transaction.{Transaction}
use blockchain_workshop.Types.Block
use blockchain_workshop.Types.Block.{Block}

pub record TransactionJson : Type 0 where
  pub hash : Text
  pub sender : Text
  pub receiver : Text
  pub nonce : ℤ
  pub amount : ℤ
  pub sig : Text

pub record BlockJson : Type 0 where
  pub number : ℤ
  pub nonce : ℤ
  pub parent_hash : Text
  pub coinbase : Text
  pub transactions : List TransactionJson
  pub hash : Text

module _ ⦃c : Crypto⦄ where
  unfoldable pub transaction_to_json : Transaction → Result TransactionJson
  transaction_to_json tx = do
    h ← Transaction.hash tx
    ok (record {
      hash = hex h;
      sender = hex tx.sender;
      receiver = hex tx.receiver;
      nonce = tx.nonce;
      amount = tx.amount;
      sig = hex tx.sig;
    })

  unfoldable pub transactions_to_json : List Transaction → Result (List TransactionJson)
  transactions_to_json [] = ok []
  transactions_to_json (tx ∷ txs) = do
    j ← transaction_to_json tx
    js ← transactions_to_json txs
    ok (j ∷ js)

  unfoldable pub block_to_json : Block → Result BlockJson
  block_to_json b = do
    b' ← Block.calculate_hash b
    js ← transactions_to_json b'.transactions
    ok (record {
      number = b'.number;
      nonce = b'.nonce;
      parent_hash = hex b'.parent_hash;
      coinbase = hex b'.coinbase;
      transactions = js;
      hash = hex b'.hash;
    })
