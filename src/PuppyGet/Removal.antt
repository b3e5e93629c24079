-- ===== src/PuppyGet/Removal.antt =====
-- What puppy-get removes from the device, and what `-n` keeps.
use libpuppy.Tools.{backslash}
use libpuppy.Base.{
  take, ◌++◌, true, [], ◌∷◌, none, not, ◌&&◌, All, length, some, ◌≡◌, ℕ, List, Option,
}
use libpuppy.PuppyGet.{
  source_path, convert_slashes, puppy_hdd_del, Entry, CString, Files, Env, Removed, Run, Options,
  Exit, exited,
}

-- A removal asked for with these options, in this directory: `-m` holds and `-n` does not, the local
-- copy has the size of the entry, and the call of `puppy_hdd_del` was for the path of the entry in the
-- directory, of which no more than 255 bytes are kept.
abbrev pub IsCopied : Env → Options → Option CString → Removed → Type 0
IsCopied env o directory r =
    (dir : CString) × (directory ≡ some dir)
    × ((o.move && not o.noact) ≡ true)
    × (bytes : List ℕ) × (r.local ≡ some bytes)
    × (length bytes ≡ r.entry.size)
    × (puppy_hdd_del r.before env.req (take 255 (dir ++ (backslash ∷ r.entry.name)))
        ≡ some (r.code, r.after))

-- The calls that a step adds are such removals.
abbrev AddsCopied : Env → Options → Option CString → Run → Option Run → Type 0
AddsCopied env o directory s none = Unit
AddsCopied env o directory s (some t) =
    All (IsCopied env o directory) s.removed → All (IsCopied env o directory) t.removed

module _ (env : Env) (o : Options) (dir : CString)
    (stat_sizes : (files : Files) (name : CString) (n : ℕ)
      → env.stat files name ≡ some n
      → (bytes : List ℕ) × (files name ≡ some bytes) × (length bytes ≡ n)) where
  abbrev src : Entry → CString
  src e = source_path dir e.name

-- The calls of `puppy_hdd_del` of a run of the program.
abbrev pub removals : Exit → List Removed
removals (exited s finishing) = s.removed
removals _ = []

-- The directory that the operands name.
abbrev pub named_directory : List CString → Option CString
named_directory [] = none
named_directory (arg ∷ operands) = convert_slashes arg
