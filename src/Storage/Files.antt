-- ===== src/Storage/Files.antt =====
-- Classes StorageMaster and DiskStorage of bcws/storage.py. The files of the operating system and
-- os.path.join are an interface.
use blockchain_workshop.Prelude.{
  ◌≡◌, ◌≢◌, ◌⊎◌, Bool, true, false, Option, none, some, Result, ok, err, file_not_found, Action,
  Bytes, Text, codes, [], ◌==◌, if◌then◌else◌, Bytes_eq,
}
use blockchain_workshop.Prelude.Dict.{Dict, setdefault}
use blockchain_workshop.Prelude.Actions.{pure, ◌>>=◌, ◌>>◌}
use blockchain_workshop.Storage.{Store}

-- os.path.exists and os.path.join, what open with "rb" and read, and open with "wb" and write do,
-- os.remove and os.makedirs.
pub record FileSystem : Type 1 where
  pub Files : Type 0
  pub join : Text → Text → Text
  pub path_exists : Text → Files → Bool
  pub read_file : Text → Files → Result Bytes
  pub write_file : Text → Bytes → Action Files (Unit {0})
  pub remove_file : Text → Action Files (Unit {0})
  pub make_dirs : Text → Action Files (Unit {0})

-- What the code relies on in a directory, for the names of files in it: the file is there with its
-- content, or opening it for reading raises FileNotFoundError.
pub record DirectoryLaws (fs : FileSystem) (dir : Text) : Type 1 where
  pub IsName : Text → Type 0
  pub IsUsable : fs.Files → Type 0
  pub there_or_not :
      (p : Text) (f : fs.Files)
      → IsName p
      → IsUsable f
      → ((fs.path_exists (fs.join dir p) f ≡ true)
          × (b : Bytes) × (fs.read_file (fs.join dir p) f ≡ ok b))
        ⊎ ((fs.path_exists (fs.join dir p) f ≡ false)
            × (fs.read_file (fs.join dir p) f ≡ err file_not_found))
  pub write_result :
      (p : Text) (content : Bytes) (f : fs.Files)
      → IsName p
      → IsUsable f
      → ((fs.write_file (fs.join dir p) content f).0 ≡ ok tt)
        × IsUsable (fs.write_file (fs.join dir p) content f).1
        × (fs.read_file (fs.join dir p) (fs.write_file (fs.join dir p) content f).1 ≡ ok content)
  pub write_others :
      (p q : Text) (content : Bytes) (f : fs.Files)
      → IsName p
      → IsName q
      → p ≢ q
      → IsUsable f
      → fs.read_file (fs.join dir q) (fs.write_file (fs.join dir p) content f).1
        ≡ fs.read_file (fs.join dir q) f
  pub remove_there :
      (p : Text) (f : fs.Files)
      → IsName p
      → IsUsable f
      → fs.path_exists (fs.join dir p) f ≡ true
      → ((fs.remove_file (fs.join dir p) f).0 ≡ ok tt)
        × IsUsable (fs.remove_file (fs.join dir p) f).1
        × (fs.read_file (fs.join dir p) (fs.remove_file (fs.join dir p) f).1 ≡ err file_not_found)
  pub remove_missing :
      (p : Text) (f : fs.Files)
      → IsName p
      → IsUsable f
      → fs.path_exists (fs.join dir p) f ≡ false
      → fs.remove_file (fs.join dir p) f ≡ (err file_not_found, f)
  pub remove_others :
      (p q : Text) (f : fs.Files)
      → IsName p
      → IsName q
      → p ≢ q
      → IsUsable f
      → fs.read_file (fs.join dir q) (fs.remove_file (fs.join dir p) f).1
        ≡ fs.read_file (fs.join dir q) f

pub record DiskStorage : Type 0 where
  pub root : Text
  pub name : Text

-- What get_storage returns; a MemoryStorage is the store of its name in _STORAGE.
pub data Opened : Type 0 where
  memory : Text → Opened
  disk : DiskStorage → Opened

module _ (fs : FileSystem) where
  unfoldable pub dir_of : DiskStorage → Text
  dir_of d = fs.join d.root d.name

  unfoldable pub make_path : Text → DiskStorage → Text
  unfolding dir_of
  make_path path d = fs.join (dir_of d) path

  -- DiskStorage(master, name)
  unfoldable pub new : Text → Text → Action fs.Files DiskStorage
  new root name f =
      ((if fs.path_exists (fs.join root name) f then pure tt else fs.make_dirs (fs.join root name))
          >> pure (record { root = root; name = name }))
        f

  -- The stores in memory are the dict _STORAGE.
  unfoldable pub get_storage : Text → Text → Action (fs.Files × Dict Text Store) Opened
  get_storage root name (f, stores) =
      if root == codes ":memory:"
      then (ok (memory name), (f, setdefault name [] stores))
      else (let (r, f') = (new root name >>= λ d. pure (disk d)) f in (r, (f', stores)))

  unfoldable pub exists : Text → DiskStorage → fs.Files → Bool
  exists path d f = fs.path_exists (make_path path d) f

  -- The `try` of load.
  unfoldable pub found : Result Bytes → Result (Option Bytes)
  found (ok content) = ok (some content)
  found (err file_not_found) = ok none
  found (err e) = err e

  unfoldable pub load : Text → DiskStorage → fs.Files → Result (Option Bytes)
  load path d f = found (fs.read_file (make_path path d) f)

  unfoldable pub save : Text → Bytes → DiskStorage → Action fs.Files (Unit {0})
  save path content d = fs.write_file (make_path path d) content

  unfoldable pub delete : Text → DiskStorage → Action fs.Files (Unit {0})
  delete path d = fs.remove_file (make_path path d)
