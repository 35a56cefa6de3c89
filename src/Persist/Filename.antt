-- ===== src/Persist/Filename.antt =====
-- Where the file drivers keep their files: `FileConfig::filename` of `src/storage/file.rs` and of
-- `src/cache/file/internal.rs`, and the parts of `std::path::PathBuf` that they use. A path is the
-- list of its bytes.
pub mod Distinct
use citadel_runtime.Common.{
  ℕ, ◌≡◌, ◌≢◌, refl, sym, ap, ◌∙◌, Bool, true, false, ◌&&◌, ◌||◌, not, List, [], ◌∷◌, ◌++◌,
  append_assoc, All, ◌==◌, if◌then◌else◌, arith, inl, inr, Bool-cases,
}
use citadel_runtime.Persist.{FileFormat, FileConfig}

-- the bytes '/' and '.'
abbrev pub slash : ℕ
slash = 47

abbrev pub dot : ℕ
dot = 46

-- the path is empty or ends with a slash
ends_open : List ℕ → Bool
ends_open [] = true
ends_open (c ∷ []) = c == slash
ends_open (c ∷ d ∷ s) = ends_open (d ∷ s)

-- `PathBuf::push` of a relative path
push : List ℕ → List ℕ → List ℕ
unfolding ends_open
push path name = if ends_open path then path ++ name else path ++ slash ∷ name

-- no dot and no slash
is_plain : List ℕ → Bool
is_plain [] = true
is_plain (c ∷ s) = not (c == dot) && (not (c == slash) && is_plain s)

-- the path without its extension: a dot that begins the name of the file begins no extension
without_extension : Bool → List ℕ → List ℕ
unfolding is_plain
without_extension begins [] = []
without_extension begins (c ∷ s) =
    if c == dot && (not begins && is_plain s) then [] else c ∷ without_extension (c == slash) s

-- `PathBuf::set_extension` of a path that has a file name
set_extension : List ℕ → List ℕ → List ℕ
unfolding without_extension
set_extension [] path = without_extension true path
set_extension (e ∷ extension) path = without_extension true path ++ dot ∷ e ∷ extension

-- "data", the `STORAGE_FILENAME`, and "cache", the `CACHE_FILENAME`
abbrev pub storage_filename : List ℕ
storage_filename = 100 ∷ 97 ∷ 116 ∷ 97 ∷ []

abbrev pub cache_filename : List ℕ
cache_filename = 99 ∷ 97 ∷ 99 ∷ 104 ∷ 101 ∷ []

-- `FileConfig::filename`, of the storage and of the cache; `extension` is that of the format
module _ (extension : FileFormat → List ℕ) where
  unfoldable pub storage_file : FileConfig → List ℕ
  unfolding push set_extension
  storage_file c = set_extension (extension c.format) (push c.location storage_filename)

  unfoldable pub cache_file : FileConfig → List ℕ
  unfolding push set_extension
  cache_file c = set_extension (extension c.format) (push c.location cache_filename)
