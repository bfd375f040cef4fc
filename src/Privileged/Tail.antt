-- ===== src/Privileged/Tail.antt =====
-- internal/privileged/privileged.go, `tailBuffer`: the last `max` bytes of a command's output.
pub mod Exact
use masuda.Common.{
  ℕ, ◌+◌, ◌-◌, ◌*◌, List, [], ◌∷◌, ◌++◌, Bool, true, false, ltb, if◌then◌else◌, length, drop,
  take_last,
}

abbrev pub Bytes : Type 0
Bytes = List ℕ

pub record TailBuffer : Type 0 where
  pub max : ℕ
  pub buf : Bytes
  pub truncated : Bool

-- `&tailBuffer{max: …}`.
unfoldable pub new_buffer : ℕ → TailBuffer
new_buffer max = record { max = max; buf = []; truncated = false }

-- The second half of `write`: cut a buffer over twice the limit, then set the flag.
settle : ℕ → Bytes → Bool → TailBuffer
settle max buf truncated = record {
  max = max;
  buf = buf;
  truncated = if ltb max (length buf) then true else truncated;
}

-- `tailBuffer.write`. The flag is set by the length after the cut.
unfoldable pub write : TailBuffer → Bytes → TailBuffer
unfolding settle
write t p =
    let buf = t.buf ++ p in
    if ltb (2 * t.max) (length buf)
    then settle t.max (take_last t.max buf) t.truncated
    else settle t.max buf t.truncated

-- `tailBuffer.bytes`.
unfoldable pub bytes : TailBuffer → Bytes
bytes t = if ltb t.max (length t.buf) then take_last t.max t.buf else t.buf

unfoldable pub write_all : TailBuffer → List Bytes → TailBuffer
write_all t [] = t
write_all t (p ∷ ps) = write_all (write t p) ps

pub concat : List Bytes → Bytes
concat [] = []
concat (p ∷ ps) = p ++ concat ps
