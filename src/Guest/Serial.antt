-- ===== src/Guest/Serial.antt =====
-- internal/init/comm.go: opening the serial device, and the loop that reads commands from it.
use goship.Base.{
  Text, lit, ℕ, zero, suc, ◌*◌, Bool, true, false, List, [], ◌∷◌, Option, none, some, ◌==◌, text_eq,
  if◌then◌else◌, ℤ, pos, negsuc,
}
use goship.Strings.{parse_int, wrap_int64}
use goship.Guest.Message.{InitCommand}

abbrev pub default_device : Text
default_device = lit "/dev/virtio-ports/goship.0"

abbrev pub legacy_device : Text
legacy_device = lit "/dev/vport0p1"

abbrev pub fallback_device : Text
fallback_device = lit "/dev/ttyS1"

-- The devices that `NewCommunicator` tries.
unfoldable pub candidates_of : Text → List Text
candidates_of device =
    if device == default_device
    then device ∷ (legacy_device ∷ (fallback_device ∷ []))
    else device ∷ []

-- `tryOpenUntil`: whether one of the attempts up to the first that ends after the deadline, which is
-- the given count of retries later, opens the device.
unfoldable pub try_open_until : (ℕ → Bool) → ℕ → ℕ → Bool
try_open_until opens k zero = opens k
try_open_until opens k (suc n) =
    let later = try_open_until opens (suc k) n in if opens k then true else later

unfoldable pub seen_before : Text → List Text → Bool
seen_before d [] = false
seen_before d (e ∷ es) = let rest = seen_before d es in if e == d then true else rest

-- `openDeviceWithRetry`: the device that was opened.
unfoldable pub open_device : (Text → ℕ → Bool) → ℕ → List Text → List Text → Option Text
unfolding try_open_until seen_before
open_device opens n seen [] = none
open_device opens n seen (d ∷ ds) =
    let skip = open_device opens n seen ds in
    let next = open_device opens n (d ∷ seen) ds in
    if d == lit ""
    then skip
    else if seen_before d seen
    then skip
    else if try_open_until (opens d) 0 n
    then some d
    else next

abbrev pub seconds_or : ℤ → Option ℤ → ℤ
seconds_or fallback none = fallback
seconds_or fallback (some (pos zero)) = fallback
seconds_or fallback (some (pos (suc n))) = wrap_int64 (suc n * 1000000000)
seconds_or fallback (some (negsuc n)) = fallback

abbrev pub duration_or : Text → ℤ → Option ℤ → ℤ
duration_or raw fallback (some d) = d
duration_or raw fallback none = seconds_or fallback (parse_int raw)

-- `durationFromEnv`, in nanoseconds; `parse` is time.ParseDuration.
unfoldable pub duration_from_env : (Text → Option ℤ) → Text → ℤ → ℤ
unfolding parse_int wrap_int64
duration_from_env parse raw fallback =
    if raw == lit "" then fallback else duration_or raw fallback (parse raw)

-- What one read of a line gives; the bytes before an error are dropped.
pub data ReadLine : Type 0 where
  line : Text → ReadLine
  eof eio failed : ReadLine

-- `isTransientDeviceReadError`
unfoldable pub is_transient : Bool → ReadLine → Bool
is_transient char_device (line s) = false
is_transient char_device eof = char_device
is_transient char_device eio = char_device
is_transient char_device failed = false

pub data ListenEnd : Type 0 where
  listening closed read_failed : ListenEnd

module _ {M A : Type 0} (decode : Text → Option InitCommand) (invalid : A)
    (handle : InitCommand → M → A × M) where
  abbrev pub answer_line : Option InitCommand → M → A × M
  answer_line none m = (invalid, m)
  answer_line (some cmd) m = handle cmd m

  -- `Listen` over the reads that come: the responses that are sent, how the loop stands, and the
  -- state of the agent.
  unfoldable pub listen : Bool → List ReadLine → M → List A × ListenEnd × M
  unfolding is_transient
  listen dev [] m = ([], listening, m)
  listen dev (line s ∷ rs) m =
      let r = answer_line (decode s) m in
      let rest = listen dev rs r.1 in (r.0 ∷ rest.0, rest.1, rest.2)
  listen dev (failed ∷ rs) m = ([], read_failed, m)
  listen dev (eof ∷ rs) m =
      let rest = listen dev rs m in if is_transient dev eof then rest else ([], closed, m)
  listen dev (eio ∷ rs) m =
      let rest = listen dev rs m in if is_transient dev eio then rest else ([], read_failed, m)
