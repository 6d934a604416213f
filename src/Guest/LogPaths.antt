-- ===== src/Guest/LogPaths.antt =====
-- internal/init/init.go: `handleLogs` reads no file outside of /var/log.
use goship.Base.{
  Text, lit, Bool, true, false, some, All, ◌≡◌, refl, ◌++◌, has_prefix, if◌then◌else◌, ◌==◌,
  text_eq,
}
use goship.Strings.{split, clean, Stays, clean-inside, prefix_rest}
use goship.Guest.Commands.{log_path, default_log_file}

-- The path that is read for a requested log file is /var/log/ and components behind it, none of
-- which is empty, `.` or `..`.
pub log_path_inside :
    (log_file path : Text)
    → log_path log_file ≡ some path
    → (rest : Text) × (path ≡ lit "/var/log/" ++ rest) × All (Stays true) (split b'/' rest)
unfolding log_path
log_path_inside log_file path e =
    go (clean (if log_file == lit "" then default_log_file else log_file)) refl
      (has_prefix (clean (if log_file == lit "" then default_log_file else log_file))
        (lit "/var/log/"))
      refl
  where
    go :
        (p : Text)
        → clean (if log_file == lit "" then default_log_file else log_file) ≡ p
        → (b : Bool)
        → has_prefix
            (clean (if log_file == lit "" then default_log_file else log_file))
            (lit "/var/log/")
          ≡ b
        → (rest : Text) × (path ≡ lit "/var/log/" ++ rest) × All (Stays true) (split b'/' rest)
    go p ep false eb = cc (rw (eb, log_path) at e)
    go p ep true eb =
        let (r, f) = prefix_rest _ (lit "/var/log/") eb in
        (
          r,
          cc (f, rw (eb, log_path) at e),
          clean-inside (if log_file == lit "" then default_log_file else log_file) r f,
        )
