-- ===== src/Storage.antt =====
-- class MemoryStorage of bcws/storage.py: a named store of byte strings.
pub mod Files
pub mod Refinement
use blockchain_workshop.Prelude.{
  ◌≡◌, Bool, true, false, Option, none, some, ok, err, key_error, Action, Bytes, Text, arith, ◌==◌,
  bytes_eq_iff, if◌then◌else◌, Bytes_eq,
}
use blockchain_workshop.Prelude.Dict.{
  Dict, contains, lookup, insert, remove, lookup-insert, lookup-remove,
}

abbrev pub Store : Type 0
Store = Dict Text Bytes

unfoldable pub exists : Text → Store → Bool
exists path s = contains path s

unfoldable pub load : Text → Store → Option Bytes
load path s = lookup path s

unfoldable pub save : Text → Bytes → Store → Store
save path content s = insert path content s

-- `del` of a path that is not there raises.
unfoldable pub delete : Text → Action Store (Unit {0})
delete path s = elim (contains path s) [
  | true ↦ (ok tt, remove path s)
  | false ↦ (err key_error, s)
]

pub load-save :
    (p q : Text) (content : Bytes) (s : Store)
    → load q (save p content s) ≡ (if p == q then some content else load q s)
unfolding load save
load-save p q content s = lookup-insert p q content s

pub exists-load : (p : Text) (s : Store) → (exists p s ≡ false) → load p s ≡ none
unfolding exists load contains
exists-load p s h = ground arith

pub exists-save :
    (p q : Text) (content : Bytes) (s : Store)
    → exists q (save p content s) ≡ (if p == q then true else exists q s)
unfolding exists save contains
exists-save p q content s = ground (arith, lookup-insert p q content s)

-- A deletion raises KeyError exactly if the path is not there; behind it this path cannot be
-- loaded, and every other path loads what it did.
pub delete_lem :
    (p q : Text) (s : Store)
    → ((delete p s).0 ≡ (if exists p s then ok tt else err key_error))
      × (load q (delete p s).1 ≡ (if p == q then none else load q s))
unfolding delete load exists contains
delete_lem p q s = ground (arith, lookup-remove p q s, bytes_eq_iff p q)
