-- ===== src/Overlaydiff/Paths.antt =====
-- internal/pkg/overlaydiff/excludes.go and the path tests of diff.go.
use warewulf.Common.{
  ℕ, ◌≡◌, refl, Bool, true, ◌&&◌, ◌||◌, List, [], ◌∷◌, ◌++◌, any, ◌==◌, if◌then◌else◌, leb,
}
use warewulf.Common.Text.{Text, codes, text_eq, has_prefix, contains, split}

-- `strings.TrimSpace`, on ASCII
abbrev pub is_space : ℕ → Bool
is_space c = c == 32 || (leb 9 c && leb c 13)

unfoldable pub trim_left : Text → Text
trim_left [] = []
trim_left (c ∷ s) = if is_space c then trim_left s else c ∷ s

unfoldable pub trim_right : Text → Text
trim_right [] = []
trim_right (c ∷ s) = elim (trim_right s) [
  | [] ↦ if is_space c then [] else c ∷ []
  | d ∷ r ↦ c ∷ d ∷ r
]

unfoldable pub trim_space : Text → Text
unfolding trim_left trim_right
trim_space s = trim_right (trim_left s)

-- One segment of `filepath.Clean`; the stack holds the kept segments, the last one first.
abbrev clean_segment : Bool → Text → List Text → List Text
clean_segment rooted seg stack =
    if text_eq seg [] || text_eq seg (codes ".")
    then stack
    else if text_eq seg (codes "..")
    then elim stack [
      | [] ↦ if rooted then [] else seg ∷ []
      | top ∷ below ↦ if text_eq top (codes "..") then seg ∷ top ∷ below else below
    ]
    else seg ∷ stack

clean_segments : Bool → List Text → List Text → List Text
clean_segments rooted [] stack = stack
clean_segments rooted (seg ∷ segs) stack =
    clean_segments rooted segs (clean_segment rooted seg stack)

join_reversed : List Text → Text → Text
join_reversed [] out = out
join_reversed (seg ∷ []) out = seg ++ out
join_reversed (seg ∷ segs) out = join_reversed segs (b'/' ∷ (seg ++ out))

-- `filepath.Clean`
unfoldable pub clean : Text → Text
unfolding clean_segments join_reversed has_prefix text_eq split
clean path =
    let rooted = has_prefix path (codes "/") in
    let body = join_reversed (clean_segments rooted (split path b'/') []) [] in
    if rooted then b'/' ∷ body else if text_eq body [] then codes "." else body

-- `normalizeRelPath`; `filepath.ToSlash` changes nothing on Linux.
unfoldable pub normalize_rel_path : Text → Text
unfolding has_prefix
normalize_rel_path path = if has_prefix path (codes "/") then path else b'/' ∷ path

-- The loop of `NormalizeExcludes`. `seen` holds what `normalized` holds, so one list serves.
unfoldable pub normalize_loop : List Text → List Text → List Text
unfolding trim_space clean normalize_rel_path contains
normalize_loop [] normalized = normalized
normalize_loop (exclude ∷ excludes) normalized =
    let value = trim_space exclude in
    let cleaned = clean value in
    let rooted = normalize_rel_path cleaned in
    let skip = normalize_loop excludes normalized in
    let push = normalize_loop excludes (normalized ++ rooted ∷ []) in
    if text_eq value []
    then skip
    else if text_eq cleaned (codes ".")
    then skip
    else if contains normalized rooted
    then skip
    else push

unfoldable pub normalize_excludes : List Text → List Text
unfolding normalize_loop
normalize_excludes excludes = normalize_loop excludes []

abbrev pub default_excludes : List Text
default_excludes =
    codes "/boot"
    ∷ codes "/home"
    ∷ codes "/root"
    ∷ codes "/media"
    ∷ codes "/mnt"
    ∷ codes "/var/log"
    ∷ codes "/var/cache"
    ∷ codes "/var/tmp"
    ∷ codes "/tmp"
    ∷ codes "/run"
    ∷ codes "/var/run"
    ∷ codes "/dev"
    ∷ codes "/proc"
    ∷ codes "/sys"
    ∷ []

unfoldable pub resolve_excludes : List Text → List Text
unfolding normalize_excludes
resolve_excludes overrides = normalize_excludes (default_excludes ++ overrides)

-- `path == dir || strings.HasPrefix(path, dir+"/")`
unfoldable pub is_under : Text → Text → Bool
unfolding text_eq has_prefix
is_under path dir = text_eq path dir || has_prefix path (dir ++ codes "/")

unfoldable pub has_auto_excluded_segment : Text → Bool
unfolding split text_eq
has_auto_excluded_segment path =
    any (λ segment. text_eq segment (codes "cache") || text_eq segment (codes ".cache"))
      (split path b'/')

unfoldable pub should_exclude : Text → List Text → Bool
unfolding has_auto_excluded_segment is_under
should_exclude path excludes =
    if has_auto_excluded_segment path then true else any (is_under path) excludes

unfoldable pub should_include : Text → List Text → Bool
unfolding is_under has_prefix
should_include path [] = true
should_include path (i ∷ is) =
    any (λ include. is_under path include || has_prefix include (path ++ codes "/")) (i ∷ is)

clean_dots : clean (codes "/var//./log/../lib/") ≡ codes "/var/lib"
unfolding clean
clean_dots = refl

normalize_example :
    normalize_excludes (codes " var/log/ " ∷ codes "/var/log" ∷ codes "." ∷ [])
    ≡ codes "/var/log" ∷ []
unfolding normalize_excludes
normalize_example = refl
