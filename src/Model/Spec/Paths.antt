-- ===== src/Model/Spec/Paths.antt =====
-- coordinator/internal/model/spec.go, PathsOverlap.
use drsync.Prelude.{ℕ, Bool, true, false, ◌||◌, [], ◌∷◌, ◌++◌, Bytes, bytes_eq, ◌==◌, if◌then◌else◌}

-- strings.TrimRight(s, "/")
unfoldable pub trim_slashes : Bytes → Bytes
trim_slashes [] = []
trim_slashes (b ∷ bs) = drop_slash b (trim_slashes bs)
  where
    drop_slash : ℕ → Bytes → Bytes
    drop_slash b [] = if b == 47 then [] else b ∷ []
    drop_slash b (c ∷ cs) = b ∷ c ∷ cs

-- strings.HasPrefix(s, p)
unfoldable pub has_prefix : Bytes → Bytes → Bool
has_prefix s [] = true
has_prefix [] (p ∷ ps) = false
has_prefix (b ∷ bs) (p ∷ ps) = let rest = has_prefix bs ps in if b == p then rest else false

-- PathsOverlap
unfoldable pub paths_overlap : Bytes → Bytes → Bool
paths_overlap a b =
    let ca = trim_slashes a ++ 47 ∷ [] in
    let cb = trim_slashes b ++ 47 ∷ [] in bytes_eq ca cb || (has_prefix ca cb || has_prefix cb ca)
