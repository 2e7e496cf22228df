-- ===== src/Examples/Files.antt =====
-- A DiskStorage over a toy file system: a dict from paths to contents.
use blockchain_workshop.Prelude.{
  [], ◌∷◌, ◌++◌, ◌≡◌, ◌≢◌, refl, inl, inr, false, Result, ok, err, key_error, file_not_found,
  Action, Bytes, Text, codes, ◌==◌, ==_refl, ==-cases, if◌then◌else◌, Bytes_eq, Bool-cases,
  Option-cases,
}
use blockchain_workshop.Prelude.Dict.{
  Dict, lookup, contains, insert, remove, lookup-insert, lookup-remove,
}
use blockchain_workshop.Storage
use blockchain_workshop.Storage.{Store}
use blockchain_workshop.Storage.Files
use blockchain_workshop.Storage.Files.{FileSystem, DirectoryLaws, DiskStorage, dir_of, make_path}
use blockchain_workshop.Storage.Refinement.{Represents, content_of, storage_refines}

unfoldable toy_read : Text → Dict Text Bytes → Result Bytes
toy_read p f = content_of (lookup p f)

unfoldable toy_remove : Text → Action (Dict Text Bytes) (Unit {0})
toy_remove p f = if contains p f then (ok tt, remove p f) else (err file_not_found, f)

abbrev toy_files : FileSystem
toy_files = record {
  Files = Dict Text Bytes;
  join = λ a b. a ++ b'/' ∷ b;
  path_exists = λ p f. contains p f;
  read_file = toy_read;
  write_file = λ p content f. (ok tt, insert p content f);
  remove_file = toy_remove;
  make_dirs = λ p f. (ok tt, f);
}

same_rest : (a : Text) (p q : Text) → a ++ p ≡ a ++ q → p ≡ q
same_rest [] p q e = e
same_rest (c ∷ a) p q e = same_rest a p q (cc e)

joins_differ : (a p q : Text) → p ≢ q → ((a ++ b'/' ∷ p) == (a ++ b'/' ∷ q)) ≡ false
joins_differ a p q other = elim (==-cases (a ++ b'/' ∷ p) (a ++ b'/' ∷ q)) [
  | inl (e, _) ↦ absurd (other (cc (same_rest a (b'/' ∷ p) (b'/' ∷ q) e)))
  | inr (_, t) ↦ t
]

toy_laws : (dir : Text) → DirectoryLaws toy_files dir
unfolding toy_read toy_remove contains
toy_laws dir = record {
  IsName = λ p. Unit {0};
  IsUsable = λ f. Unit {0};
  there_or_not = λ p f _ _. elim (Option-cases (lookup (dir ++ b'/' ∷ p) f)) [
    | inl e ↦ inr (rw (contains, e) refl, rw e refl)
    | inr (b, e) ↦ inl (rw (contains, e) refl, b, rw e refl)
  ];
  write_result = λ p content f _ _. (
    refl,
    tt,
    rw (lookup-insert (dir ++ b'/' ∷ p) (dir ++ b'/' ∷ p) content f, ==_refl (dir ++ b'/' ∷ p))
        refl,
  );
  write_others = λ p q content f _ _ other _.
      rw (lookup-insert (dir ++ b'/' ∷ p) (dir ++ b'/' ∷ q) content f, joins_differ dir p q other)
        refl;
  remove_there = λ p f _ _ there.
      rw (toy_remove, there)
        (
          refl,
          tt,
          rw (lookup-remove (dir ++ b'/' ∷ p) (dir ++ b'/' ∷ p) f, ==_refl (dir ++ b'/' ∷ p)) refl,
        );
  remove_missing = λ p f _ _ gone. rw (toy_remove, gone) refl;
  remove_others = λ p q f _ _ other _. elim (Bool-cases (contains (dir ++ b'/' ∷ p) f)) [
    | inl t ↦
        rw
          (
            toy_remove,
            t,
            lookup-remove (dir ++ b'/' ∷ p) (dir ++ b'/' ∷ q) f,
            joins_differ dir p q other,
          )
          refl
    | inr t ↦ rw (toy_remove, t) refl
  ];
}

abbrev shelf : DiskStorage
shelf = record { root = codes "r"; name = codes "n" }

abbrev entries : Store
entries = (codes "k", 7 ∷ 8 ∷ []) ∷ []

abbrev files : Dict Text Bytes
files = (codes "r/n/k", 7 ∷ 8 ∷ []) ∷ []

shelf_laws : DirectoryLaws toy_files (dir_of toy_files shelf)
shelf_laws = toy_laws (dir_of toy_files shelf)

read_shelf :
    (p : Text) → toy_read (make_path toy_files p shelf) files ≡ content_of (Storage.load p entries)
unfolding toy_read make_path dir_of Storage.load lookup
read_shelf p = elim (Bool-cases (codes "k" == p)) [ inl t ↦ rw t refl | inr t ↦ rw t refl ]

usable : shelf_laws.IsUsable files
unfolding shelf_laws toy_laws
usable = tt

shelf-Represents : Represents toy_files shelf shelf_laws entries files
shelf-Represents = record { usable = usable; files = λ p _. read_shelf p }

named : shelf_laws.IsName (codes "k")
unfolding shelf_laws toy_laws
named = tt

storage_refines_example :
    (Files.exists toy_files (codes "k") shelf files ≡ Storage.exists (codes "k") entries)
    × (Files.load toy_files (codes "k") shelf files ≡ ok (Storage.load (codes "k") entries))
    × ((Files.save toy_files (codes "k") (9 ∷ []) shelf files).0 ≡ ok tt)
    × Represents toy_files shelf shelf_laws
        (Storage.save (codes "k") (9 ∷ []) entries)
        (Files.save toy_files (codes "k") (9 ∷ []) shelf files).1
    × ((Files.delete toy_files (codes "k") shelf files).0
        ≡ (if Storage.exists (codes "k") entries then ok tt else err file_not_found))
    × ((Storage.delete (codes "k") entries).0
        ≡ (if Storage.exists (codes "k") entries then ok tt else err key_error))
    × Represents toy_files shelf shelf_laws
        (Storage.delete (codes "k") entries).1
        (Files.delete toy_files (codes "k") shelf files).1
storage_refines_example =
    storage_refines toy_files shelf shelf_laws entries files shelf-Represents (codes "k") named
      (9 ∷ [])
