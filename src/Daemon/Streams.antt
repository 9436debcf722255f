-- ===== src/Daemon/Streams.antt =====
-- The streams of macdetectd/src/Daemon.cpp: `enableStream`, `disableStream`, `streamEnabled` and the
-- loops of `cycle` that erase streams.
use macdetect.Base.{
  ℕ, zero, suc, Bool, true, false, ◌&&◌, List, [], ◌∷◌, ◌++◌, none, some, Text, str_eq, ◌==◌, any,
  take_first, if◌then◌else◌,
}
use macdetect.Daemon.{Stream}

abbrev pub is_stream : ℕ → Text → Stream → Bool
is_stream h name s = s.served == h && str_eq s.device_name name

unfoldable pub stream_enabled : List Stream → ℕ → Text → Bool
stream_enabled streams h name = any (is_stream h name) streams

-- The source returns no value, though its type has one.
unfoldable pub enable_stream : List Stream → ℕ → Text → List Stream
unfolding stream_enabled
enable_stream streams h name =
    if stream_enabled streams h name
    then streams
    else streams ++ (record { served = h; device_name = name } ∷ [])

unfoldable pub disable_stream : List Stream → ℕ → Text → List Stream × Bool
disable_stream streams h name = elim (take_first (is_stream h name) streams) [
  | none ↦ (streams, false)
  | some (_, rest) ↦ (rest, true)
]

-- A loop that erases the streams of a kind one by one: the streams that are left, and the erased
-- ones. The number of the streams is fuel enough.
unfoldable pub erase_streams : (Stream → Bool) → ℕ → List Stream → List Stream × List Stream
erase_streams p zero streams = (streams, [])
erase_streams p (suc f) streams = elim (take_first p streams) [
  | none ↦ (streams, [])
  | some (s, rest) ↦ let (kept, erased) = erase_streams p f rest in (kept, s ∷ erased)
]
