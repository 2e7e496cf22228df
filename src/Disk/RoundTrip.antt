-- ===== src/Disk/RoundTrip.antt =====
-- A state is read back from the disk as it was saved.
use blockchain_workshop.Prelude.{
  [], ◌∷◌, ◌++◌, append_assoc, ◌≡◌, ◌≢◌, ◌∙◌, sym, ap, append-nil, refl, Bool, false, none, inl,
  inr, if◌then◌else◌, ==-cases, ok, Bytes, arith, All, IsBytes, ◌==◌, ==_refl, bytes_eq_iff,
  Bytes_eq,
}
use blockchain_workshop.Prelude.Int.{ℤ, ℤ_eq}
use blockchain_workshop.Prelude.Dict.{Dict, lookup, insert}
use blockchain_workshop.Text.Hex.{fromhex-hex}
use blockchain_workshop.Text.Decimal.{str, str_injective}
use blockchain_workshop.Storage.{Store, load-save}
use blockchain_workshop.Chain.State.{BlockchainState}
use blockchain_workshop.Disk.{
  Json, JsonLaw, hex_keys, unhex_keys, to_json, from_json, save_to_disk, load_from_disk,
  parse_state,
}

-- The keys are byte strings, and none stands twice.
abbrev pub IsDict : Dict Bytes ℤ → Type 0
IsDict [] = Unit
IsDict ((k, v) ∷ d) = IsBytes k × (lookup k d ≡ none) × IsDict d

insert_fresh :
    (k : Bytes) (v : ℤ) (d : Dict Bytes ℤ) → lookup k d ≡ none → insert k v d ≡ d ++ (k, v) ∷ []
unfolding insert lookup
insert_fresh k v [] h = refl
insert_fresh k v ((j, w) ∷ d) h = ground (arith, insert_fresh k v d)

-- No key of `d` is in `acc`.
abbrev Fresh : Dict Bytes ℤ → Dict Bytes ℤ → Type 0
Fresh acc = All (λ (e : Bytes × ℤ). lookup e.0 acc ≡ none)

lookup-append_none :
    (j k : Bytes) (v : ℤ) (acc : Dict Bytes ℤ)
    → lookup j acc ≡ none
    → (k == j) ≡ Bool.false
    → lookup j (acc ++ (k, v) ∷ []) ≡ none
unfolding lookup
lookup-append_none j k v [] h ne = ground arith
lookup-append_none j k v ((i, w) ∷ acc) h ne = ground (arith, lookup-append_none j k v acc)

Fresh-append :
    (k : Bytes) (v : ℤ) (acc d : Dict Bytes ℤ)
    → Fresh acc d
    → lookup k d ≡ none
    → Fresh (acc ++ (k, v) ∷ []) d
unfolding lookup
Fresh-append k v acc [] f h = tt
Fresh-append k v acc ((j, w) ∷ d) f h = (
  lookup-append_none j k v acc f.0 (ground (arith, bytes_eq_iff j k, bytes_eq_iff k j)),
  Fresh-append k v acc d f.1 (ground arith),
)

unhex-hex :
    (d acc : Dict Bytes ℤ) → IsDict d → Fresh acc d → unhex_keys (hex_keys d) acc ≡ ok (acc ++ d)
unfolding unhex_keys hex_keys
unhex-hex [] acc h f = ap ok (sym (append-nil acc))
unhex-hex ((k, v) ∷ d) acc h f =
    rw (fromhex-hex k h.0, insert_fresh k v acc f.0)
      (unhex-hex d (acc ++ (k, v) ∷ []) h.2 (Fresh-append k v acc d f.1 h.1)
        ∙ ap ok (append_assoc acc ((k, v) ∷ []) d))

Fresh-nil : (d : Dict Bytes ℤ) → Fresh [] d
Fresh-nil [] = tt
Fresh-nil (e ∷ d) = (unfold lookup in refl, Fresh-nil d)

pub record IsStorable (s : BlockchainState) : Type 0 where
  pub hash_bytes : IsBytes s.block_hash
  pub balances : IsDict s.balances
  pub nonces : IsDict s.nonces

pub from_json-to_json : (s : BlockchainState) → IsStorable s → from_json (to_json s) ≡ ok s
unfolding from_json to_json
from_json-to_json s h = rw (
  fromhex-hex s.block_hash h.hash_bytes,
  unhex-hex s.balances [] h.balances (Fresh-nil s.balances),
  unhex-hex s.nonces [] h.nonces (Fresh-nil s.nonces),
)

different_texts : (a b : ℤ) → a ≢ b → (str a == str b) ≡ false
different_texts a b ne = ground (arith, bytes_eq_iff (str a) (str b), str_injective a b)

load_self :
    (json : Json) (s : BlockchainState) (st : Store)
    → JsonLaw json
    → IsStorable s
    → load_from_disk json s.block_number (save_to_disk json s st) ≡ ok s
unfolding load_from_disk save_to_disk parse_state
load_self json s st law h = ground (
  arith,
  load-save (str s.block_number) (str s.block_number) (json.dumps (to_json s)) st,
  ==_refl (str s.block_number),
  law (to_json s),
  from_json-to_json s h,
  ==_refl s.block_number,
)

load_other :
    (json : Json) (s : BlockchainState) (st : Store) (number : ℤ)
    → (str s.block_number == str number) ≡ false
    → load_from_disk json number (save_to_disk json s st) ≡ load_from_disk json number st
unfolding load_from_disk save_to_disk
load_other json s st number ne =
    ground (arith, load-save (str s.block_number) (str number) (json.dumps (to_json s)) st, ne)

-- When json.loads reads what json.dumps wrote and the state is storable: a state that is saved is
-- loaded under its number, and what is loaded under another number stays as it was.
pub load-save_state :
    (json : Json) (s : BlockchainState) (st : Store) (number : ℤ)
    → JsonLaw json
    → IsStorable s
    → load_from_disk json number (save_to_disk json s st)
      ≡ (if s.block_number == number then ok s else load_from_disk json number st)
load-save_state json s st number law h = elim (==-cases s.block_number number) [
  | inl (same, e) ↦ rw (e, ← same) (load_self json s st law h)
  | inr (other, e) ↦
      rw e (load_other json s st number (different_texts s.block_number number other))
]
