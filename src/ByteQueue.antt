-- ===== src/ByteQueue.antt =====
-- The receive buffer of a connection (app/src/mail/socket.ts, ByteQueue): an array that grows, of which the
-- bytes between two indices are held. A typed array's `set` throws where its source does not fit.
pub mod Slices
pub mod Contents
pub mod Refining
mod Tests
use crypt_mail.Prelude.{
  ℕ, zero, suc, ◌+◌, ◌-◌, ◌*◌, ◌&&◌, Option, none, some, List, [], ◌∷◌, ltb, leb, ◌==◌,
  if◌then◌else◌, length,
}
use Prim.Native.Nat.{max}

pub record ByteQueue : Type 0 where
  pub buf : List ℕ
  pub start : ℕ
  pub end : ℕ

-- new Uint8Array(n)
unfoldable pub zeros : ℕ → List ℕ
zeros zero = []
zeros (suc n) = 0 ∷ zeros n

abbrev pub new_queue : ByteQueue
new_queue = record { buf = zeros 4096; start = 0; end = 0 }

-- subarray(start, end), for indices in range; slice(start, end) copies the same bytes.
unfoldable pub subarray : ℕ → ℕ → List ℕ → List ℕ
subarray start zero buf = []
subarray start (suc end) [] = []
subarray zero (suc end) (b ∷ buf) = b ∷ subarray zero end buf
subarray (suc start) (suc end) (b ∷ buf) = subarray start end buf

unfoldable pub overwrite : ℕ → List ℕ → List ℕ → List ℕ
overwrite at xs [] = []
overwrite zero [] (b ∷ buf) = b ∷ buf
overwrite zero (x ∷ xs) (b ∷ buf) = x ∷ overwrite zero xs buf
overwrite (suc at) xs (b ∷ buf) = b ∷ overwrite at xs buf

-- buf.set(xs, at), with none for a RangeError
abbrev pub set_at : List ℕ → List ℕ → ℕ → Option (List ℕ)
set_at buf xs at = if leb (at + length xs) (length buf) then some (overwrite at xs buf) else none

-- The buffer with what is held at its front, a longer one where that leaves no room.
abbrev pub roomy : ByteQueue → List ℕ → List ℕ
roomy queue chunk =
    let held = queue.end - queue.start in
    if ltb (length queue.buf) (held + length chunk)
    then zeros (max (length queue.buf * 2) (held + length chunk))
    else queue.buf

abbrev pub moved : ByteQueue → List ℕ → Option ByteQueue
moved queue chunk = front (set_at (roomy queue chunk) (subarray queue.start queue.end queue.buf) 0)
  where
    front : Option (List ℕ) → Option ByteQueue
    front none = none
    front (some buf) = some (record { buf = buf; start = 0; end = queue.end - queue.start })

abbrev pub append_chunk : List ℕ → Option ByteQueue → Option ByteQueue
append_chunk chunk none = none
append_chunk chunk (some queue) = placed (set_at queue.buf chunk queue.end)
  where
    placed : Option (List ℕ) → Option ByteQueue
    placed none = none
    placed (some buf) = some (record queue { buf = buf; end = queue.end + length chunk })

unfoldable pub push : ByteQueue → List ℕ → Option ByteQueue
push queue chunk =
    append_chunk chunk
      (if ltb (length queue.buf) (queue.end + length chunk) then moved queue chunk else some queue)

abbrev pub byte_at : ℕ → List ℕ → ℕ
byte_at i [] = 0
byte_at zero (b ∷ buf) = b
byte_at (suc i) (b ∷ buf) = byte_at i buf

-- The loop of indexOfCrlf from an index on, with none for -1.
unfoldable pub crlf_from : ByteQueue → ℕ → ℕ → Option ℕ
crlf_from queue zero i = none
crlf_from queue (suc fuel) i =
    let later = crlf_from queue fuel (i + 1) in
    if ltb (i + 1) queue.end
    then (if byte_at i queue.buf == 13 && byte_at (i + 1) queue.buf == 10
        then some (i - queue.start)
        else later)
    else none

-- indexOfCrlf(): as many rounds as there are bytes.
unfoldable pub index_of_crlf : ByteQueue → Option ℕ
index_of_crlf queue = crlf_from queue (queue.end - queue.start) queue.start

-- take(n): what is returned, and the queue after it.
abbrev pub taken : ByteQueue → ℕ → List ℕ
taken queue n = subarray queue.start (queue.start + n) queue.buf

abbrev pub rest_after : ByteQueue → ℕ → ByteQueue
rest_after queue n =
    if queue.start + n == queue.end
    then record queue { start = 0; end = 0 }
    else record queue { start = queue.start + n }
