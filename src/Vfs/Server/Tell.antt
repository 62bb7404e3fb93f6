-- ===== src/Vfs/Server/Tell.antt =====
-- srv/vfs/vfs.c: vfs_tell_parse and vfs_tell_cmd, which load drivers and mount file systems on a message. A
-- call is `none` where the code leaves a string or reads one through NULL.
pub mod Parse
use frotznet.Prelude.{
  ℕ, ◌-◌, Option, none, some, List, [], ◌∷◌, ◌++◌, ◌==◌, if◌then◌else◌, length, take,
}
use frotznet.Vfs.Mounts.{same_name, Vfs, vfs_mount}

-- "load" and "mount"
abbrev pub load : List ℕ
load = b'l' ∷ b'o' ∷ b'a' ∷ b'd' ∷ []

abbrev pub mount : List ℕ
mount = b'm' ∷ b'o' ∷ b'u' ∷ b'n' ∷ b't' ∷ []

-- What a command does: dlopen of a file, or vfs_mount of a directory, a type and options.
pub data Action : Type 0 where
  opens : List ℕ → Action
  mounts : List ℕ → List ℕ → List ℕ → Action

abbrev pub push_char : ℕ → List (List ℕ) → List (List ℕ)
push_char x [] = (x ∷ []) ∷ []
push_char x (w ∷ ws) = (x ∷ w) ∷ ws

-- The strings that the loop of vfs_tell_parse cuts off: each ends at a space or at the end.
unfoldable pub words : List ℕ → List (List ℕ)
words [] = []
words (x ∷ xs) = let rest = words xs in if x == b' ' then [] ∷ rest else push_char x rest

-- A search for a space: the string before it and the one behind it.
unfoldable pub at_space : List ℕ → Option (List ℕ × List ℕ)
at_space [] = none
at_space (x ∷ xs) =
    if x == b' '
    then some ([], xs)
    else elim (at_space xs) [ none ↦ none | some (w, rest) ↦ some (x ∷ w, rest) ]

-- The name of a driver's file, in a buffer of 32 characters.
abbrev pub driver_file : List ℕ → List ℕ
driver_file arg =
    take 31 ((b'/' ∷ b'b' ∷ b'o' ∷ b'o' ∷ b't' ∷ b'/' ∷ []) ++ (arg ++ (b'.' ∷ b's' ∷ b'o' ∷ [])))

abbrev pub mount_dir : List ℕ → Option (List ℕ × List ℕ) → Option Action
mount_dir type none = none
mount_dir type (some (dir, options)) = some (mounts dir type options)

abbrev pub mount_type : Option (List ℕ × List ℕ) → Option Action
mount_type none = none
mount_type (some (type, rest)) = mount_dir type (at_space rest)

abbrev pub one_action : Option Action → Option (List Action)
one_action none = none
one_action (some a) = some (a ∷ [])

-- vfs_tell_cmd
unfoldable pub tell_cmd : List ℕ → List ℕ → Option (List Action)
unfolding at_space
tell_cmd cmd arg =
    if same_name cmd load
    then some (opens (driver_file arg) ∷ [])
    else if same_name cmd mount
    then one_action (mount_type (at_space arg))
    else some []

abbrev pub both : Option (List Action) → Option (List Action) → Option (List Action)
both none after = none
both (some before) none = none
both (some before) (some after) = some (before ++ after)

-- A command on each word.
unfoldable pub tell_each : List ℕ → List (List ℕ) → Option (List Action)
unfolding tell_cmd
tell_each cmd [] = some []
tell_each cmd (w ∷ ws) = both (tell_cmd cmd w) (tell_each cmd ws)

-- Words put together again, with a space behind each.
unfoldable pub join : List (List ℕ) → List ℕ
join [] = []
join (w ∷ ws) = w ++ (b' ' ∷ join ws)

-- The NUL in the place of the last character.
unfoldable pub cut_last : List ℕ → Option (List ℕ)
cut_last [] = none
cut_last (x ∷ []) = some []
cut_last (x ∷ y ∷ ys) = elim (cut_last (y ∷ ys)) [ none ↦ none | some zs ↦ some (x ∷ zs) ]

abbrev pub tell_whole : List ℕ → Option (List ℕ) → Option (List Action)
tell_whole cmd none = none
tell_whole cmd (some full) = tell_cmd cmd full

abbrev pub tell_words : ℕ → List (List ℕ) → Option (List Action)
tell_words len [] = none
tell_words len (cmd ∷ ws) =
    if same_name cmd mount
    then tell_whole cmd (cut_last (take (len - 1) (join ws)))
    else tell_each cmd ws

-- vfs_tell_parse; the buffer for the words behind "mount" has a byte less than the message has characters.
unfoldable pub tell_parse : List ℕ → Option (List Action)
unfolding words tell_each join cut_last
tell_parse msg = tell_words (length msg - 1) (words msg)

abbrev pub perform : List Action → Vfs → Vfs
perform [] v = v
perform (opens file ∷ rest) v = perform rest v
perform (mounts dir type options ∷ rest) v = perform rest (vfs_mount dir type options v).1
