-- ===== src/Strings/Scanning.antt =====
-- bufio.Scanner over the lines of a file.
use goship.Base.{
  Text, ℕ, List, [], ◌∷◌, Option, none, some, ◌==◌, nat_eq, leb, length, if◌then◌else◌,
}
use mathlib.Core.Option
use goship.Strings.Cutting.{unsnoc, cons_part}

-- The lines of bufio.ScanLines, before a carriage return at the end is dropped.
unfoldable pub raw_lines : Text → List Text
raw_lines [] = []
raw_lines (c ∷ s) = let rest = raw_lines s in if c == b'\n' then [] ∷ rest else cons_part c rest

abbrev pub drop_cr : Text → Text
drop_cr line = elim (unsnoc line) [ none ↦ line | some r ↦ if r.1 == 13 then r.0 else line ]

-- bufio.MaxScanTokenSize: a line that fills the scanner's buffer ends the scan with an error.
abbrev pub max_line : ℕ
max_line = 65536

-- What os.Open and the reads of the file answer.
pub data Content : Type 0 where
  no_file broken : Content
  bytes : Text → Content

-- The lines that `Scan` yields, or nothing if one of them is too long.
unfoldable pub scan : List Text → Option (List Text)
scan [] = some []
scan (line ∷ lines) =
    let rest = scan lines in
    if leb max_line (length line) then none else Option.map (λ r. drop_cr line ∷ r) rest
