-- ===== src/Command/Targets/Lists.antt =====
-- `readList` against a writer of lists of paths.
use mathlib.Core.List.{flatten}
use sec_compile_option.Base.{
  ==_iff, All, List, [], ap, map, ne→==_false, refl, some, ℕ, ◌++◌, ◌∙◌, ◌∷◌, ◌≡◌, ◌≢◌,
}
use sec_compile_option.Command.Targets.{FileSystem, listed, read_list}
use sec_compile_option.Go.Spaces.{backwards, front_width, reversed, space_encodings}
use sec_compile_option.Go.Spaces.Comments.{trim_space_comment}
use sec_compile_option.Go.Spaces.Encodings.{AreSpaces}
use sec_compile_option.Go.Spaces.Trims.{trim_space_blank, trim_space_path}
use sec_compile_option.Go.Strings.{Bytes, Lacks, eq_bytes, has_prefix, join, push_first, split}

-- A line of the list: a path between spaces, a comment behind spaces, or spaces alone; each space is
-- the encoding of a rune.
pub data Line : Type 0 where
  path_line : List Bytes → Bytes → List Bytes → Line
  comment_line : List Bytes → Bytes → Line
  blank_line : List Bytes → Line

abbrev pub written_line : Line → Bytes
written_line (path_line indent p trail) = flatten indent ++ (p ++ flatten trail)
written_line (comment_line indent text) = flatten indent ++ b'#' ∷ text
written_line (blank_line spaces) = flatten spaces

-- A path is not empty, does not start with #, and neither starts nor ends with a space.
abbrev pub IsListedPath : Bytes → Type 0
IsListedPath [] = ⊥
IsListedPath (c ∷ s) =
    (c ≢ b'#')
    × (front_width space_encodings (c ∷ s) ≡ 0)
    × (front_width backwards (reversed (c ∷ s)) ≡ 0)

-- No line holds a line feed.
abbrev pub IsLine : Line → Type 0
IsLine (path_line indent p trail) =
    Lacks b'\n' (flatten indent ++ (p ++ flatten trail))
    × AreSpaces indent
    × IsListedPath p
    × AreSpaces trail
IsLine (comment_line indent text) = Lacks b'\n' (flatten indent ++ b'#' ∷ text) × AreSpaces indent
IsLine (blank_line spaces) = Lacks b'\n' (flatten spaces) × AreSpaces spaces

abbrev pub paths_of : List Line → List Bytes
paths_of [] = []
paths_of (path_line indent p trail ∷ ls) = p ∷ paths_of ls
paths_of (_ ∷ ls) = paths_of ls

split_none : (b : ℕ) (s : Bytes) → Lacks b s → split b s ≡ s ∷ []
unfolding split push_first
split_none b [] h = refl
split_none b (c ∷ s) (n, h) = rw (ne→==_false c b n, split_none b s h) refl

split-append : (b : ℕ) (s t : Bytes) → Lacks b s → split b (s ++ b ∷ t) ≡ s ∷ split b t
unfolding split push_first
split-append b [] t h = rw ((==_iff b b).1 refl) refl
split-append b (c ∷ s) t (n, h) = rw (ne→==_false c b n, split-append b s t h) refl

-- Joined lines are split into themselves.
split-join :
    (b : ℕ) (l : Line) (ls : List Line)
    → All (λ l. Lacks b (written_line l)) (l ∷ ls)
    → split b (join (b ∷ []) (map written_line (l ∷ ls))) ≡ map written_line (l ∷ ls)
unfolding join
split-join b l [] (h, t) = split_none b (written_line l) h
split-join b l (m ∷ ls) (h, hs) =
    split-append b (written_line l) (join (b ∷ []) (map written_line (m ∷ ls))) h
    ∙ ap (◌∷◌ (written_line l)) (split-join b m ls hs)

listed_lines : (ls : List Line) → All IsLine ls → listed (map written_line ls) ≡ paths_of ls
unfolding listed eq_bytes has_prefix
listed_lines [] t = refl
listed_lines (path_line indent [] trail ∷ ls) ((l, i, h, t), hs) = absurd h
listed_lines (path_line indent (c ∷ s) trail ∷ ls) ((l, i, h, t), hs) =
    rw (trim_space_path indent c s trail i t h.1 h.2, ne→==_false c b'#' h.0)
      (ap (◌∷◌ (c ∷ s)) (listed_lines ls hs))
listed_lines (comment_line indent text ∷ ls) ((l, i), hs) =
    let (rest, e) = trim_space_comment indent text i in rw e (listed_lines ls hs)
listed_lines (blank_line spaces ∷ ls) ((l, i), hs) =
    rw (trim_space_blank spaces i) (listed_lines ls hs)

IsLine-Lacks : (ls : List Line) → All IsLine ls → All (λ l. Lacks b'\n' (written_line l)) ls
IsLine-Lacks [] t = tt
IsLine-Lacks (path_line i p t ∷ ls) (h, hs) = (h.0, IsLine-Lacks ls hs)
IsLine-Lacks (comment_line i x ∷ ls) (h, hs) = (h.0, IsLine-Lacks ls hs)
IsLine-Lacks (blank_line x ∷ ls) (h, hs) = (h.0, IsLine-Lacks ls hs)

-- From a file of lines that are joined by line feeds, each a path between spaces, a comment or
-- spaces alone, the paths come back in order. A path is not empty, neither starts nor ends with a
-- space, and does not start with #; the spaces are those of Unicode.
pub read_list-join :
    (fs : FileSystem) (path : Bytes) (l : Line) (ls : List Line)
    → All IsLine (l ∷ ls)
    → fs.read_file path ≡ some (join (b'\n' ∷ []) (map written_line (l ∷ ls)))
    → read_list fs path ≡ some (paths_of (l ∷ ls))
unfolding read_list
read_list-join fs path l ls h e =
    rw (read_list, e, split-join b'\n' l ls (IsLine-Lacks (l ∷ ls) h))
      (ap some (listed_lines (l ∷ ls) h))
