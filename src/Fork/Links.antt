-- ===== src/Fork/Links.antt =====
-- The block storage of the fork manager: every stored block is filed under its hash, and its parent
-- is stored too, down to a block 0.
use mathlib.Core.Path.{subst}
use blockchain_workshop.Prelude.{
  ◌≡◌, ◌⊎◌, inl, inr, true, Option, none, some, ok, Bytes, Text, arith, IsBytes, ==-cases, ==_refl,
  Bytes_eq,
}
use blockchain_workshop.Prelude.Int.{pos}
use blockchain_workshop.Text.Hex.{hex, hex_injective}
use blockchain_workshop.Storage
use blockchain_workshop.Storage.{Store, load-save, exists-save}
use blockchain_workshop.Crypto.{Crypto, CryptoLaws}
use blockchain_workshop.Types.Block
use blockchain_workshop.Types.Block.{Block}
use blockchain_workshop.Types.Parsed.{IsProper, IsProper-deserialize}

-- The block is block 0, or its parent is stored, or its parent is the pending one.
abbrev pub Linked : Option Bytes → Store → Block → Type 0
Linked pending st b =
    (b.number ≡ pos 0)
    ⊎ (Storage.exists (hex b.parent_hash) st ≡ true)
    ⊎ (pending ≡ some b.parent_hash)

module _ ⦃c : Crypto⦄ where
  pub record IsStored (pending : Option Bytes) (st : Store) (h : Bytes) : Type 0 where
    pub text : Text
    pub block : Block
    pub loaded : Storage.load (hex h) st ≡ some text
    pub read : Block.deserialize text ≡ ok block
    pub filed : block.hash ≡ h
    pub linked : Linked pending st block

  -- All stored blocks are filed and linked; the parent of some may be pending.
  abbrev pub IsLinked : Option Bytes → Store → Type 0
  IsLinked pending st =
      (h : Bytes) → IsBytes h → Storage.exists (hex h) st ≡ true → IsStored pending st h

  Linked-arrived :
      (q : Bytes) (st : Store) (b : Block)
      → Storage.exists (hex q) st ≡ true
      → Linked (some q) st b
      → Linked none st b
  Linked-arrived q st b here (inl zero_block) = inl zero_block
  Linked-arrived q st b here (inr (inl stored)) = inr (inl stored)
  Linked-arrived q st b here (inr (inr e)) =
      let same : q ≡ b.parent_hash = cc e in inr (inl (rw same at here))

  -- Nothing is pending once the pending block is stored.
  pub IsLinked-arrived :
      (q : Bytes) (st : Store)
      → Storage.exists (hex q) st ≡ true
      → IsLinked (some q) st
      → IsLinked none st
  IsLinked-arrived q st here links h hb there =
      let s = links h hb there in
      record {
        text = s.text;
        block = s.block;
        loaded = s.loaded;
        read = s.read;
        filed = s.filed;
        linked = Linked-arrived q st s.block here s.linked;
      }

  Linked-weaker : (p : Option Bytes) (st : Store) (b : Block) → Linked none st b → Linked p st b
  Linked-weaker p st b (inl zero_block) = inl zero_block
  Linked-weaker p st b (inr (inl stored)) = inr (inl stored)
  Linked-weaker p st b (inr (inr e)) = cc e

  pub IsLinked-pending : (p : Option Bytes) (st : Store) → IsLinked none st → IsLinked p st
  IsLinked-pending p st links h hb there =
      let s = links h hb there in
      record {
        text = s.text;
        block = s.block;
        loaded = s.loaded;
        read = s.read;
        filed = s.filed;
        linked = Linked-weaker p st s.block s.linked;
      }

  -- What a save adds stays findable.
  pub exists-save_mono :
      (p q : Text) (content : Bytes) (st : Store)
      → Storage.exists q st ≡ true
      → Storage.exists q (Storage.save p content st) ≡ true
  exists-save_mono p q content st h = ground (arith, exists-save p q content st)

  exists-save_self :
      (p : Text) (content : Bytes) (st : Store)
      → Storage.exists p (Storage.save p content st) ≡ true
  exists-save_self p content st = rw (exists-save, ==_refl p)

  Linked-saved :
      (b x : Block) (p : Option Bytes) (text : Text) (st : Store)
      → Linked (some b.hash) st x
      → Linked p (Storage.save (hex b.hash) text st) x
  Linked-saved b x p text st (inl zero_block) = inl zero_block
  Linked-saved b x p text st (inr (inl stored)) =
      inr (inl (exists-save_mono (hex b.hash) (hex x.parent_hash) text st stored))
  Linked-saved b x p text st (inr (inr e)) =
      let same : b.hash ≡ x.parent_hash = cc e in
      inr (
        inl (
          subst (λ q. Storage.exists (hex q) (Storage.save (hex b.hash) text st) ≡ true) same
            (exists-save_self (hex b.hash) text st)))

  -- Storing the pending block: what is pending then is its own parent, if it is not block 0.
  pub IsLinked-save :
      (b : Block) (text : Text) (p : Option Bytes) (st : Store)
      → IsBytes b.hash
      → Block.deserialize text ≡ ok b
      → Linked p (Storage.save (hex b.hash) text st) b
      → IsLinked (some b.hash) st
      → IsLinked p (Storage.save (hex b.hash) text st)
  IsLinked-save b text p st bb read own links h hb there = elim (==-cases (hex b.hash) (hex h)) [
    | inl (e, t) ↦ record {
      text = text;
      block = b;
      loaded = rw (load-save, t);
      read = read;
      filed = hex_injective b.hash h bb hb e;
      linked = own;
    }
    | inr (ne, t) ↦
        let s = links h hb (ground (arith, exists-save (hex b.hash) (hex h) text st)) in
        record {
          text = s.text;
          block = s.block;
          loaded = ground (arith, load-save (hex b.hash) (hex h) text st, s.loaded);
          read = s.read;
          filed = s.filed;
          linked = Linked-saved b s.block p text st s.linked;
        }
  ]

  -- The hash of a proper block is a byte string.
  pub IsProper-hash : (laws : CryptoLaws c) (b : Block) → IsProper b → IsBytes b.hash
  IsProper-hash laws b p =
      let (text, ht, read, e) = IsProper-deserialize b p in rw e (laws.sha256-IsBytes text)
