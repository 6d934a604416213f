-- ===== src/Guest/Listening.antt =====
-- What `Listen` answers.
use goship.Base.{Text, Bool, true, false, List, [], ◌∷◌, Option}
use goship.Guest.Message.{InitCommand}
use goship.Guest.Serial.{ReadLine, line, failed, answer_line}

-- The lines that were read.
unfoldable pub lines_read : List ReadLine → List Text
lines_read [] = []
lines_read (line s ∷ rs) = s ∷ lines_read rs
lines_read (_ ∷ rs) = lines_read rs

-- Not an error that ends the loop on a character device.
abbrev pub is_passing : ReadLine → Bool
is_passing failed = false
is_passing _ = true

module _ {M A : Type 0} (decode : Text → Option InitCommand) (invalid : A)
    (handle : InitCommand → M → A × M) where
  -- Each line answered, one after the other.
  unfoldable pub answer_all : List Text → M → List A × M
  answer_all [] m = ([], m)
  answer_all (s ∷ ss) m =
      let r = answer_line decode invalid handle (decode s) m in
      let rest = answer_all ss r.1 in (r.0 ∷ rest.0, rest.1)
