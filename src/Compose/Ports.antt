-- ===== src/Compose/Ports.antt =====
-- Port mappings as they are written are the ones that `parsePorts` reads.
use goship.Base.{
  Text, lit, ℕ, ◌<◌, ◌^◌, true, [], ◌∷◌, ◌++◌, ok, pos, itoa, All, All-append, All-imp, ◌≡◌, ◌≢◌,
  refl, ap, ◌∙◌, arith,
}
use goship.Strings.{
  split, cut-append, cut-none, split-append, split-none, is_digit, itoa-All, parse_int-itoa,
}
use goship.Compose.Fields.{parse_port}

-- A text without the separators of a port mapping.
abbrev pub IsPart : Text → Type 0
IsPart s = All (λ c. (c ≢ b':') × (c ≢ b'/')) s

itoa-IsPart : (n : ℕ) → IsPart (itoa n)
itoa-IsPart n =
    All-imp (λ c. is_digit c ≡ true) (λ c. (c ≢ b':') × (c ≢ b'/'))
      (λ c h. ((λ e. ground (arith, h, e)), (λ e. ground (arith, h, e)))) (itoa n) (itoa-All n)

no_colon : (s : Text) → IsPart s → All (λ c. c ≢ b':') s
no_colon s h = All-imp _ (λ c. c ≢ b':') (λ c p. p.0) s h

no_slash : (s : Text) → IsPart s → All (λ c. c ≢ b'/') s
no_slash s h = All-imp _ (λ c. c ≢ b'/') (λ c p. p.1) s h

abbrev pub host_container : ℕ → ℕ → Text
host_container h c = itoa h ++ (b':' ∷ itoa c)

host_container-no_slash : (h c : ℕ) → All (λ d. d ≢ b'/') (host_container h c)
host_container-no_slash h c =
    All-append (λ d. d ≢ b'/') (itoa h) _ (no_slash _ (itoa-IsPart h))
      ((λ e. ground (arith, e)), no_slash _ (itoa-IsPart c))

split-host_container : (h c : ℕ) → split b':' (host_container h c) ≡ itoa h ∷ itoa c ∷ []
split-host_container h c =
    split-append b':' (itoa h) (itoa c) (no_colon _ (itoa-IsPart h))
    ∙ ap (λ t. itoa h ∷ t) (split-none b':' (itoa c) (no_colon _ (itoa-IsPart c)))

-- A host and a container port, written in decimal, are read back: plainly, with a protocol behind
-- a slash, and with an address in front, which is dropped.
pub parse_port_roundtrip :
    (h c : ℕ) (protocol address : Text)
    → h < 2 ^ 63
    → c < 2 ^ 63
    → IsPart address
    → (parse_port (host_container h c)
        ≡ ok (record { host_port = pos h; container_port = pos c; protocol = lit "tcp" }))
      × (parse_port (host_container h c ++ (b'/' ∷ protocol))
          ≡ ok (record { host_port = pos h; container_port = pos c; protocol = protocol }))
      × (parse_port (address ++ (b':' ∷ host_container h c))
          ≡ ok (record { host_port = pos h; container_port = pos c; protocol = lit "tcp" }))
unfolding parse_port
parse_port_roundtrip h c protocol address lh lc part = (
  rw (cut-none b'/' (host_container h c) (host_container-no_slash h c), parse_port)
      (rw (split-host_container h c) (rw (parse_int-itoa h lh, parse_int-itoa c lc) refl)),
  rw (cut-append b'/' (host_container h c) protocol (host_container-no_slash h c), parse_port)
      (rw (split-host_container h c) (rw (parse_int-itoa h lh, parse_int-itoa c lc) refl)),
  rw
      (
        cut-none b'/' (address ++ (b':' ∷ host_container h c)) (
            All-append (λ d. d ≢ b'/') address _ (no_slash _ part)
              ((λ e. ground (arith, e)), host_container-no_slash h c)),
        parse_port,
      )
      (rw (split-append b':' address (host_container h c) (no_colon _ part))
        (rw (split-host_container h c) (rw (parse_int-itoa h lh, parse_int-itoa c lc) refl))),
)
