-- ===== src/Node/Genesis.antt =====
-- A node that starts on empty stores: the genesis block is its chain.
use blockchain_workshop.Prelude.{
  ℕ, zero, suc, [], ◌≡◌, refl, false, some, ok, Bytes, Text, codes, arith, IsBytes, ==_refl,
  Bytes_eq,
}
use blockchain_workshop.Prelude.Int.{pos, ℤ_eq}
use blockchain_workshop.Prelude.Dict.{get_or, lookup}
use blockchain_workshop.Text.Hex.{hex}
use blockchain_workshop.Text.Decimal.{str, str_ℕ}
use blockchain_workshop.Storage
use blockchain_workshop.Storage.{Store, load-save}
use blockchain_workshop.Crypto.{Crypto, CryptoLaws}
use blockchain_workshop.Types.Block
use blockchain_workshop.Types.Block.{Block}
use blockchain_workshop.Types.Parsed.{IsProper, IsProper-deserialize}
use blockchain_workshop.Chain.State
use blockchain_workshop.Chain.State.{BlockchainState, balance_of}
use blockchain_workshop.Disk.{Json, JsonLaw, save_to_disk}
use blockchain_workshop.Disk.RoundTrip.{IsStorable, load-save_state}
use blockchain_workshop.Fork
use blockchain_workshop.Canonical
use blockchain_workshop.Canonical.{
  ChainCanonicaliser, get_latest_num, get_latest_hash, get_block_by_number, get_block_by_hash,
  get_state_at,
}
use blockchain_workshop.Canonical.Latest.{
  IsConsistent, recorded, latest_is_no_number, latest_num-recorded, latest_hash-recorded,
}
use blockchain_workshop.Node
use blockchain_workshop.Node.{Stores, zeros, make_genesis, create_genesis, get_balance}

zeros-IsBytes : (n : ℕ) → IsBytes (zeros n)
unfolding zeros
zeros-IsBytes zero = tt
zeros-IsBytes (suc n) = (omega arith, zeros-IsBytes n)

str-zero : str (pos 0) ≡ codes "0"
unfolding str str_ℕ
str-zero = refl

module _ ⦃c : Crypto⦄ where
  -- The genesis block before its hash is calculated.
  abbrev blank : Block
  blank = record {
    number = pos 0;
    nonce = pos 0;
    parent_hash = zeros 32;
    coinbase = zeros 33;
    transactions = [];
    hash = [];
  }

  abbrev pub genesis : Bytes → Block
  genesis h = record blank { hash = h }

  abbrev pub start : Bytes → BlockchainState
  start h = record (State.new (pos 0)) { block_hash = h }

  made :
      (text : Text) × (Block.serialize blank ≡ ok text)
      × (make_genesis ≡ ok (genesis (c.sha256 text), start (c.sha256 text)))
  unfolding make_genesis Block.calculate_hash Block.serialize Block.serialize_all
  made = (_, refl, refl)

  same_text : (h : Bytes) → Block.serialize (genesis h) ≡ Block.serialize blank
  unfolding Block.serialize
  same_text h = refl

  genesis-IsProper :
      (text : Text) → Block.serialize blank ≡ ok text → IsProper (genesis (c.sha256 text))
  unfolding Block.calculate_hash
  genesis-IsProper text e = record {
    hashed = ground (arith, same_text (c.sha256 text), e);
    parent_bytes = zeros-IsBytes 32;
    coinbase_bytes = zeros-IsBytes 33;
    transactions = tt;
  }

  start-IsStorable : (laws : CryptoLaws c) (text : Text) → IsStorable (start (c.sha256 text))
  start-IsStorable laws text = record {
    hash_bytes = laws.sha256-IsBytes text;
    balances = tt;
    nonces = tt;
  }

  module _ (json : Json) (st : Stores) where
    abbrev founded : Bytes → Text → Stores
    founded h text = record {
      block = Storage.save (hex h) text st.block;
      blocknum = recorded (pos 0) h st.blocknum;
      blockstate = save_to_disk json (start h) st.blockstate;
    }

    created :
        (text : Text) × (Block.serialize blank ≡ ok text)
        × (create_genesis json st ≡ ok (founded (c.sha256 text) text))
    unfolding create_genesis
    created =
        let (text, e, m) = made in (text, e, rw (m, same_text (c.sha256 text), e, ← str-zero) refl)

    abbrev pub first_chain : Bytes → Text → ChainCanonicaliser
    first_chain h text = record {
      fork_manager = Fork.new (founded h text).block;
      blocknum_storage = (founded h text).blocknum;
      blockstate_storage = (founded h text).blockstate;
      latest_num = pos 0;
      latest_hash = h;
    }

    first_chain-IsConsistent : (h : Bytes) (text : Text) → IsConsistent (first_chain h text)
    first_chain-IsConsistent h text =
        (latest_num-recorded (pos 0) h st.blocknum, latest_hash-recorded (pos 0) h st.blocknum)

    opened :
        (h : Bytes) (text : Text)
        → Canonical.new
            (Fork.new (founded h text).block)
            (founded h text).blocknum
            (founded h text).blockstate
          ≡ ok (first_chain h text)
    unfolding Canonical.new
    opened h text =
        rw
          (
            Canonical.new,
            latest_num-recorded (pos 0) h st.blocknum,
            latest_hash-recorded (pos 0) h st.blocknum,
          )
          refl

    number_zero : (h : Bytes) → Storage.load (str (pos 0)) (recorded (pos 0) h st.blocknum) ≡ some h
    number_zero h =
        rw
          (
            load-save (codes "latest") (str (pos 0)) (str (pos 0))
                (Storage.save (str (pos 0)) h st.blocknum),
            latest_is_no_number (pos 0),
            load-save (str (pos 0)) (str (pos 0)) h st.blocknum,
            ==_refl (str (pos 0)),
          )
          refl

    block_zero :
        (text : Text)
        → Block.serialize blank ≡ ok text
        → get_block_by_number (pos 0) (first_chain (c.sha256 text) text)
          ≡ ok (genesis (c.sha256 text))
    unfolding get_block_by_number get_block_by_hash
    block_zero text e =
        let (t, written, read, _) =
          IsProper-deserialize (genesis (c.sha256 text)) (genesis-IsProper text e) in
        let same : t ≡ text = cc (written, same_text (c.sha256 text), e) in
        rw
          (
            get_block_by_number,
            number_zero (c.sha256 text),
            get_block_by_hash,
            load-save (hex (c.sha256 text)) (hex (c.sha256 text)) text st.block,
            ==_refl (hex (c.sha256 text)),
          )
          (rw same at read)

    state_zero :
        (laws : CryptoLaws c) (text : Text)
        → JsonLaw json
        → get_state_at json (pos 0) (first_chain (c.sha256 text) text) ≡ ok (start (c.sha256 text))
    unfolding get_state_at
    state_zero laws text law =
        load-save_state json (start (c.sha256 text)) st.blockstate (pos 0) law
          (start-IsStorable laws text)

    new_on_empty :
        (text : Text)
        → Storage.exists (codes "latest") st.blocknum ≡ false
        → create_genesis json st ≡ ok (founded (c.sha256 text) text)
        → Node.new json st ≡ ok (first_chain (c.sha256 text) text)
    unfolding Node.new
    new_on_empty text e m = rw (Node.new, e, m) (opened (c.sha256 text) text)

    balance_zero :
        (a : Bytes) (h : Bytes) (chain : ChainCanonicaliser)
        → get_state_at json (pos 0) chain ≡ ok (start h)
        → get_balance json a (pos 0) chain ≡ ok (pos 0)
    unfolding get_balance get_or lookup
    balance_zero a h chain e = rw e refl

    -- Under the laws of the cryptography, and when json.loads reads what json.dumps wrote: a node
    -- that is made on stores without a latest number does not raise. Its latest number is 0 and its
    -- fields agree with the number storage; its block 0 can be read, is proper and has the latest
    -- hash; and at block 0 every balance is 0.
    pub new-genesis :
        (laws : CryptoLaws c)
        → JsonLaw json
        → Storage.exists (codes "latest") st.blocknum ≡ false
        → (chain : ChainCanonicaliser) × (b : Block) × (Node.new json st ≡ ok chain)
          × (chain.latest_num ≡ pos 0)
          × IsConsistent chain
          × (get_block_by_number (pos 0) chain ≡ ok b)
          × IsProper b
          × (b.hash ≡ chain.latest_hash)
          × ((a : Bytes) → get_balance json a (pos 0) chain ≡ ok (pos 0))
    new-genesis laws law e =
        let (text, written, m) = created in
        let h = c.sha256 text in
        (
          first_chain h text,
          genesis h,
          new_on_empty text e m,
          refl,
          first_chain-IsConsistent h text,
          block_zero text written,
          genesis-IsProper text written,
          refl,
          λ a. balance_zero a h (first_chain h text) (state_zero laws text law),
        )
