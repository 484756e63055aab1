-- ===== src/Server/Disk.antt =====
-- The write to disk that ends every `saveLocked` of cmd/mygrokd (ipacl.go, tunnellocks.go,
-- invites.go, passkeys.go): create the directory, marshal, write a temporary file, rename it over
-- the old one. The operating system decides how each step ends, and `Io` says how. The content of a
-- file is the value that encoding/json writes and reads back.
use mygrok.Base.{Bool, true, [], Option, none, some, Bytes, ◌==◌, if◌then◌else◌}

pub record Io : Type 0 where
  pub mkdir : Bool
  pub marshal : Bool
  pub write : Bool
  pub rename : Bool

pub data SaveError : Type 0 where
  mkdir_failed marshal_failed write_failed rename_failed : SaveError

abbrev pub working : Io
working = record { mkdir = true; marshal = true; write = true; rename = true }

module _ {ℓ} {F : Type ℓ} where
  -- The content of the file afterwards, and the error. An empty path turns persistence off.
  unfoldable pub save_file : Bytes → Io → F → Option F → Option F × Option SaveError
  save_file path io f disk =
      if path == []
      then (disk, none)
      else if io.mkdir
      then if io.marshal
        then if io.write
          then if io.rename then (some f, none) else (disk, some SaveError.rename_failed)
          else (disk, some SaveError.write_failed)
        else (disk, some SaveError.marshal_failed)
      else (disk, some SaveError.mkdir_failed)
