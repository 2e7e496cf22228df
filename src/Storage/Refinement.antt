-- ===== src/Storage/Refinement.antt =====
-- A DiskStorage beside a MemoryStorage.
use blockchain_workshop.Prelude.{
  ◌≡◌, refl, sym, ap, ◌∙◌, inl, inr, true, false, Option, none, some, Result, ok, err, key_error,
  file_not_found, Bytes, Text, ◌==◌, ==-cases, if◌then◌else◌, Bytes_eq, Option-cases, Bool-cases,
  arith,
}
use blockchain_workshop.Prelude.Dict.{remove, lookup-remove, contains}
use blockchain_workshop.Storage
use blockchain_workshop.Storage.{Store, load-save, delete_lem}
use blockchain_workshop.Storage.Files
use blockchain_workshop.Storage.Files.{FileSystem, DirectoryLaws, DiskStorage, dir_of, make_path}

-- What reading the file of an entry gives.
abbrev pub content_of : Option Bytes → Result Bytes
content_of none = err file_not_found
content_of (some content) = ok content

module _ (fs : FileSystem) (d : DiskStorage) (laws : DirectoryLaws fs (dir_of fs d)) where
  -- The files of the directory are the entries of the store.
  pub record Represents (s : Store) (f : fs.Files) : Type 0 where
    pub usable : laws.IsUsable f
    pub files :
        (p : Text)
        → laws.IsName p
        → fs.read_file (make_path fs p d) f ≡ content_of (Storage.load p s)

  exists-loaded :
      (p : Text) (s : Store) (b : Bytes) → Storage.load p s ≡ some b → Storage.exists p s ≡ true
  unfolding Storage.load Storage.exists contains
  exists-loaded p s b e = ground arith

  exists-missing : (p : Text) (s : Store) → Storage.load p s ≡ none → Storage.exists p s ≡ false
  unfolding Storage.load Storage.exists contains
  exists-missing p s e = ground arith

  delete_there :
      (p : Text) (s : Store) → Storage.exists p s ≡ true → Storage.delete p s ≡ (ok tt, remove p s)
  unfolding Storage.delete Storage.exists
  delete_there p s e = ground arith

  delete_missing :
      (p : Text) (s : Store) → Storage.exists p s ≡ false → Storage.delete p s ≡ (err key_error, s)
  unfolding Storage.delete Storage.exists
  delete_missing p s e = ground arith

  module _ (p q : Text) (content : Bytes) (s : Store) where
    saved_same : (p == q) ≡ true → Storage.load q (Storage.save p content s) ≡ some content
    saved_same t = rw (load-save p q content s, t) refl

    saved_other : (p == q) ≡ false → Storage.load q (Storage.save p content s) ≡ Storage.load q s
    saved_other t = rw (load-save p q content s, t) refl

  module _ (p q : Text) (s : Store) where
    removed_same : (p == q) ≡ true → Storage.load q (remove p s) ≡ none
    unfolding Storage.load
    removed_same t = rw (lookup-remove p q s, t) refl

    removed_other : (p == q) ≡ false → Storage.load q (remove p s) ≡ Storage.load q s
    unfolding Storage.load
    removed_other t = rw (lookup-remove p q s, t) refl

  module _ (s : Store) (f : fs.Files) (r : Represents s f) (p : Text) (named : laws.IsName p) where
    exists_agrees : Files.exists fs p d f ≡ Storage.exists p s
    unfolding Files.exists make_path
    exists_agrees = elim (laws.there_or_not p f named r.usable) [
      | inl (there, b, read) ↦ elim (Option-cases (Storage.load p s)) [
        | inl e ↦ absurd (cc (sym read ∙ r.files p named ∙ ap content_of e))
        | inr (c, e) ↦ there ∙ sym (exists-loaded p s c e)
      ]
      | inr (gone, read) ↦ elim (Option-cases (Storage.load p s)) [
        | inl e ↦ gone ∙ sym (exists-missing p s e)
        | inr (c, e) ↦ absurd (cc (sym read ∙ r.files p named ∙ ap content_of e))
      ]
    ]

    load_agrees : Files.load fs p d f ≡ ok (Storage.load p s)
    unfolding Files.load Files.found
    load_agrees = elim (Option-cases (Storage.load p s)) [
      | inl e ↦ rw (r.files p named, e) refl
      | inr (c, e) ↦ rw (r.files p named, e) refl
    ]

    save-Represents :
        (content : Bytes)
        → ((Files.save fs p content d f).0 ≡ ok tt)
          × Represents (Storage.save p content s) (Files.save fs p content d f).1
    unfolding Files.save make_path
    save-Represents content =
        let (done, usable, read) = laws.write_result p content f named r.usable in
        (
          done,
          record {
            usable = usable;
            files = λ q nq. elim (==-cases p q) [
              | inl (same, t) ↦
                  ap
                    (λ x.
                      fs.read_file (fs.join (dir_of fs d) x)
                        (fs.write_file (fs.join (dir_of fs d) p) content f).1)
                    (sym same)
                  ∙ read
                  ∙ ap content_of (sym (saved_same p q content s t))
              | inr (other, t) ↦
                  laws.write_others p q content f named nq other r.usable
                  ∙ r.files q nq
                  ∙ ap content_of (sym (saved_other p q content s t))
            ];
          },
        )

    -- A file that is removed.
    removed-Represents :
        fs.path_exists (make_path fs p d) f ≡ true
        → ((Files.delete fs p d f).0 ≡ ok tt) × Represents (remove p s) (Files.delete fs p d f).1
    unfolding Files.delete make_path
    removed-Represents there =
        let (done, usable, read) = laws.remove_there p f named r.usable there in
        (
          done,
          record {
            usable = usable;
            files = λ q nq. elim (==-cases p q) [
              | inl (same, t) ↦
                  ap
                    (λ x.
                      fs.read_file (fs.join (dir_of fs d) x)
                        (fs.remove_file (fs.join (dir_of fs d) p) f).1)
                    (sym same)
                  ∙ read
                  ∙ ap content_of (sym (removed_same p q s t))
              | inr (other, t) ↦
                  laws.remove_others p q f named nq other r.usable
                  ∙ r.files q nq
                  ∙ ap content_of (sym (removed_other p q s t))
            ];
          },
        )

    delete-Represents :
        ((Files.delete fs p d f).0 ≡ (if Storage.exists p s then ok tt else err file_not_found))
        × Represents (Storage.delete p s).1 (Files.delete fs p d f).1
    unfolding Files.exists Files.delete make_path
    delete-Represents = elim (Bool-cases (Storage.exists p s)) [
      | inl t ↦
          let (done, after) = removed-Represents (exists_agrees ∙ t) in
          (done ∙ rw t refl, rw (delete_there p s t) after)
      | inr t ↦
          let run = laws.remove_missing p f named r.usable (exists_agrees ∙ t) in
          rw (run, delete_missing p s t) (rw t refl, r)
    ]

    -- In a directory where the files behave as documented, and whose files are the entries of a
    -- MemoryStorage, a DiskStorage does for each name what the MemoryStorage does: exists and load
    -- give the same, load without an exception; save does not raise; delete raises exactly if
    -- nothing has the name, with FileNotFoundError where the other raises KeyError; and behind a
    -- save or a delete the files of the directory are again the entries of the other storage.
    pub storage_refines :
        (content : Bytes)
        → (Files.exists fs p d f ≡ Storage.exists p s)
          × (Files.load fs p d f ≡ ok (Storage.load p s))
          × ((Files.save fs p content d f).0 ≡ ok tt)
          × Represents (Storage.save p content s) (Files.save fs p content d f).1
          × ((Files.delete fs p d f).0 ≡ (if Storage.exists p s then ok tt else err file_not_found))
          × ((Storage.delete p s).0 ≡ (if Storage.exists p s then ok tt else err key_error))
          × Represents (Storage.delete p s).1 (Files.delete fs p d f).1
    storage_refines content =
        let (saved, after) = save-Represents content in
        let (deleted, gone) = delete-Represents in
        (exists_agrees, load_agrees, saved, after, deleted, (delete_lem p p s).0, gone)
