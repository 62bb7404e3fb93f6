-- ===== src/Vfs/Path/Tests.antt =====
-- Runs of path_concat and path_combine of srv/vfs/path.c.
use frotznet.Prelude.{ℕ, ◌≡◌, refl, none, some, List, [], ◌∷◌}
use frotznet.Vfs.Path.{unwind, concat, path_concat, path_combine}
use frotznet.Vfs.Path.Resolve.{name, here, above, path, text, path_concat-resolve}

-- "boot" and "bin"
abbrev boot : List ℕ
boot = b'b' ∷ b'o' ∷ b'o' ∷ b't' ∷ []

abbrev bin : List ℕ
bin = b'b' ∷ b'i' ∷ b'n' ∷ []

-- "/boot/" and "./bin/../"
path_concat-resolve_example :
    path_concat (path (boot ∷ [])) (text (here ∷ name bin ∷ above ∷ [])) ≡ some (b'/' ∷ boot)
path_concat-resolve_example =
    path_concat-resolve (boot ∷ []) (here ∷ name bin ∷ above ∷ []) refl refl

-- A period at the end: the string is read past its NUL.
period_at_the_end : path_concat (b'/' ∷ []) (b'.' ∷ []) ≡ none
unfolding path_concat concat
period_at_the_end = refl

-- "..b" is read as ".." and "b".
name_with_two_periods :
    path_concat (path (boot ∷ [])) (b'.' ∷ b'.' ∷ b'b' ∷ []) ≡ some (b'/' ∷ b'b' ∷ [])
unfolding path_concat concat unwind
name_with_two_periods = refl

-- What the buffer holds behind the directory becomes a part of the path.
left_over :
    path_combine (b'/' ∷ b'a' ∷ []) (b'b' ∷ []) (b'x' ∷ b'y' ∷ [])
    ≡ some (b'/' ∷ b'a' ∷ b'/' ∷ b'x' ∷ b'y' ∷ b'b' ∷ [])
unfolding path_combine path_concat concat
left_over = refl
