-- ===== src/Examples/Wallet.antt =====
-- The wallet of the command line at concrete inputs.
use blockchain_workshop.Prelude.{[], ◌∷◌, ◌≡◌, refl, some, ok, Bytes, codes, arith, Bytes_eq}
use blockchain_workshop.Prelude.Int.{pos, negsuc, ◌≤ℤ◌}
use blockchain_workshop.Prelude.Dict.{lookup}
use blockchain_workshop.Text.Hex.{fromhex}
use blockchain_workshop.Text.Decimal.{int, lstrip}
use blockchain_workshop.Crypto.{public_bytes}
use blockchain_workshop.Types.Transaction
use blockchain_workshop.Types.Transaction.{Transaction}
use blockchain_workshop.Mempool
use blockchain_workshop.Fork
use blockchain_workshop.Disk.{save_to_disk}
use blockchain_workshop.Disk.RoundTrip.{load-save_state}
use blockchain_workshop.Chain.State.{balance_of}
use blockchain_workshop.Chain.Transfer.{IsAcceptable}
use blockchain_workshop.Canonical.{get_state_at}
use blockchain_workshop.Node.Producer.{Producer}
use blockchain_workshop.Node.Wallet.{send, send-IsAcceptable}
use blockchain_workshop.Examples.ToyJson.{toy_json, toy_json_law}
use blockchain_workshop.Examples.World.{toy, toy_laws, alice, state, executable}
use blockchain_workshop.Examples.Disk.{state-IsStorable}

abbrev purse : Producer
purse = record {
  canonicaliser = record {
    fork_manager = Fork.new [];
    blocknum_storage = [];
    blockstate_storage = save_to_disk toy_json state [];
    latest_num = pos 3;
    latest_hash = 5 ∷ 6 ∷ [];
  };
  mempool = Mempool.new;
  broadcasts = [];
  coinbase = alice;
}

latest_loaded : get_state_at toy_json (negsuc 0) purse.canonicaliser ≡ ok state
unfolding get_state_at
latest_loaded = load-save_state toy_json state [] (pos 3) toy_json_law state-IsStorable

typed : (int (codes "40") ≡ ok (pos 40)) × (fromhex (codes "08") ≡ ok (8 ∷ []))
unfolding int lstrip fromhex
typed = (refl, refl)

covered : pos 40 ≤ℤ balance_of state (public_bytes alice)
unfolding executable public_bytes
covered = omega arith

send-IsAcceptable_example :
    ((send toy_json 5 alice (codes "08") (codes "40") purse).0 ≡ ok tt)
    × (tx : Transaction) × (h : Bytes) × (Transaction.hash tx ≡ ok h)
    × (lookup h (send toy_json 5 alice (codes "08") (codes "40") purse).1.mempool.transactions
        ≡ some tx)
    × (tx.receiver ≡ 8 ∷ [])
    × (tx.amount ≡ pos 40)
    × IsAcceptable tx state
send-IsAcceptable_example =
    send-IsAcceptable toy_json toy_laws 5 alice (codes "08") (codes "40") (8 ∷ []) (pos 40) purse
      state typed.0 typed.1 latest_loaded (omega arith) covered
