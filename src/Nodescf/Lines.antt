-- ===== src/Nodescf/Lines.antt =====
-- The lines of the files that source/functions/nodescf.c reads, as `fgets` gives them: up to 32767
-- bytes, with the newline at their end where there is one.
use libcrange.Base.{
  ℕ, ◌+◌, Text, [], ◌∷◌, Option, none, some, Bool, ◌&&◌, ◌||◌, not, if◌then◌else◌, leb, ◌==◌,
  length,
}
use libcrange.Base.{Run, ok, fault, out_of_bounds, exits, ◌>>=◌}
use libcrange.Base.{drop_last, ends_in_newline}

-- `isspace` in the C locale
abbrev pub is_space : ℕ → Bool
is_space c = c == b' ' || (leb 9 c && leb c 13)

-- the text before the first `#`
unfoldable pub cut_comment : Text → Text
cut_comment [] = []
cut_comment (c ∷ t) = let rest = cut_comment t in if c == b'#' then [] else c ∷ rest

-- the text without the blanks at its end
unfoldable pub trim_end : Text → Text
trim_end [] = []
trim_end (c ∷ t) =
    let rest = trim_end t in if is_space c && (length rest == 0) then [] else c ∷ rest

-- The loop from the last byte backwards over blanks. It has no test for the first byte: in a text of
-- blanks alone it reads before the buffer.
unfoldable pub trim_line : Text → Run Text
trim_line t = let rest = trim_end t in if length rest == 0 then fault out_of_bounds else ok rest

-- A line of nodes.cf or vips.cf: its last byte is taken for the newline. `none` is a line without text.
unfoldable pub clean_line : Text → Run (Option Text)
clean_line line =
    if length line == 0
    then fault out_of_bounds
    else if leb 32768 (length line + 1) && not (ends_in_newline line)
    then fault exits
    else (let kept = cut_comment (drop_last line) in
        if length kept == 0 then ok none else (trim_line kept >>= λ t. ok (some t)))

-- A line of the file IGNORE: only a newline is cut off.
unfoldable pub ignored_name : Text → Run (Option Text)
ignored_name line =
    let chopped = if ends_in_newline line then drop_last line else line in
    let kept = cut_comment chopped in
    if length kept == 0 then ok none else (trim_line kept >>= λ t. ok (some t))
