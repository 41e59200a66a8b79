-- ===== src/Paths/GoPath.antt =====
-- What common/utils/utils.go and drive/*.go use of Go's packages `path` and `strings`: Clean, Join,
-- Base, Dir, Ext, TrimSpace, LastIndex.
use solocoder_6069_go_drive.Common.{
  ℕ, Bool, false, ◌&&◌, ◌||◌, List, [], ◌∷◌, ◌++◌, foldl, reverse, leb, ◌==◌, if◌then◌else◌, Str,
  str_eq, split, join,
}

abbrev pub slash : ℕ
slash = b'/'

abbrev pub dot : ℕ
dot = b'.'

abbrev pub dot_dot : Str
dot_dot = dot ∷ dot ∷ []

-- unicode.IsSpace
unfoldable pub is_space : ℕ → Bool
is_space c =
    (leb 0x09 c && leb c 0x0d)
    || ((c == 0x20)
        || ((c == 0x85)
            || ((c == 0xa0)
                || ((c == 0x1680)
                    || ((leb 0x2000 c && leb c 0x200a)
                        || ((c == 0x2028)
                            || ((c == 0x2029)
                                || ((c == 0x202f) || ((c == 0x205f) || (c == 0x3000))))))))))

-- strings.TrimLeftFunc(s, unicode.IsSpace)
unfoldable pub trim_left : Str → Str
unfolding is_space
trim_left [] = []
trim_left (c ∷ s) = let rest = trim_left s in if is_space c then rest else c ∷ s

-- strings.TrimSpace
unfoldable pub trim_space : Str → Str
unfolding trim_left
trim_space s = reverse (trim_left (reverse (trim_left s)))

-- path.Clean goes over the segments with a stack of those kept, the last on top. A ".." removes a
-- kept segment, or is kept itself in a relative path that has nothing to remove.
unfoldable pub back_up : Bool → List Str → List Str
back_up rooted [] = if rooted then [] else dot_dot ∷ []
back_up rooted (t ∷ st) = if str_eq t dot_dot then dot_dot ∷ t ∷ st else st

unfoldable pub clean_step : Bool → List Str → Str → List Str
unfolding back_up str_eq
clean_step rooted st s =
    if str_eq s [] || str_eq s (dot ∷ [])
    then st
    else if str_eq s dot_dot
    then back_up rooted st
    else s ∷ st

unfoldable pub is_rooted : Str → Bool
is_rooted [] = false
is_rooted (c ∷ s) = c == slash

-- The segments that path.Clean keeps.
unfoldable pub kept_segments : Str → List Str
unfolding clean_step is_rooted split
kept_segments s = reverse (foldl (clean_step (is_rooted s)) [] (split slash s))

unfoldable pub or_dot : Str → Str
or_dot [] = dot ∷ []
or_dot (c ∷ s) = c ∷ s

-- path.Clean
unfoldable pub clean : Str → Str
unfolding kept_segments or_dot join
clean s = let out = join slash (kept_segments s) in if is_rooted s then slash ∷ out else or_dot out

-- path.Join of two elements
unfoldable pub join_path : Str → Str → Str
unfolding clean
join_path [] [] = []
join_path [] (c ∷ q) = clean (c ∷ q)
join_path (c ∷ p) [] = clean (c ∷ p)
join_path (c ∷ p) (d ∷ q) = clean ((c ∷ p) ++ (slash ∷ d ∷ q))

-- strings.Contains(s, c) for one character
unfoldable pub contains : ℕ → Str → Bool
contains c [] = false
contains c (d ∷ s) = d == c || contains c s

-- The text behind the last `c`; all of it when there is none.
unfoldable pub after_last : ℕ → Str → Str
unfolding contains
after_last c [] = []
after_last c (d ∷ s) = let rest = after_last c s in if contains c (d ∷ s) then rest else d ∷ s

-- The text before the last `c`; all of it when there is none.
unfoldable pub before_last : ℕ → Str → Str
unfolding contains
before_last c [] = []
before_last c (d ∷ s) =
    let rest = before_last c s in if contains c s then d ∷ rest else if d == c then [] else d ∷ s

-- The directory part of path.Split: up to and with the last slash, empty when there is none.
unfoldable pub dir_part : Str → Str
unfolding before_last
dir_part s = if contains slash s then before_last slash s ++ (slash ∷ []) else []

-- path.Dir
unfoldable pub dir : Str → Str
unfolding dir_part clean
dir s = clean (dir_part s)

unfoldable pub drop_slashes : Str → Str
drop_slashes [] = []
drop_slashes (c ∷ s) = let rest = drop_slashes s in if c == slash then rest else c ∷ s

unfoldable pub or_slash : Str → Str
or_slash [] = slash ∷ []
or_slash (c ∷ s) = c ∷ s

-- path.Base
unfoldable pub base : Str → Str
unfolding drop_slashes after_last or_slash
base [] = dot ∷ []
base (c ∷ s) = or_slash (after_last slash (reverse (drop_slashes (reverse (c ∷ s)))))

-- path.Ext
unfoldable pub ext : Str → Str
unfolding after_last
ext s = let name = after_last slash s in if contains dot name then dot ∷ after_last dot name else []
