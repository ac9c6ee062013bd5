-- ===== src/ByteQueue/Contents.antt =====
-- The buffer behaves as the list of the bytes that it holds.
use crypt_mail.Prelude.{
  ℕ, zero, suc, ◌+◌, ◌-◌, ◌*◌, ◌≤◌, ◌≡◌, refl, sym, ap, ◌∙◌, inl, inr, true, false, ◌&&◌, Option,
  none, some, List, ◌∷◌, ◌++◌, arith, ltb, ◌==◌, le→leb, ltb→lt, ==_iff, Bool-cases, length, take,
}
use Prim.Native.Nat.{max}
use crypt_mail.ImapWire.Reader
use crypt_mail.ImapWire.Reader.{drop, next_index}
use crypt_mail.ByteQueue.{
  ByteQueue, zeros, subarray, overwrite, roomy, moved, append_chunk, push, byte_at, crlf_from,
  index_of_crlf, taken, rest_after,
}
use crypt_mail.ByteQueue.Slices.{
  length-overwrite, length-subarray, subarray-overwrite, subarray-take, subarray_none,
  subarray_first, subarray_next,
}

abbrev pub contents : ByteQueue → List ℕ
contents queue = subarray queue.start queue.end queue.buf

abbrev pub IsQueue : ByteQueue → Type 0
IsQueue queue = (queue.start ≤ queue.end) × (queue.end ≤ length queue.buf)

length-zeros : (n : ℕ) → length (zeros n) ≡ n
unfolding zeros
length-zeros zero = refl
length-zeros (suc n) = ap suc (length-zeros n)

-- A queue after a chunk, where the push does not throw.
abbrev pub IsPushed : ByteQueue → List ℕ → Option ByteQueue → Type 0
IsPushed queue chunk after =
    (next : ByteQueue) × (after ≡ some next)
    × IsQueue next
    × (contents next ≡ contents queue ++ chunk)

-- Where there is room at the end.
append_chunk-IsPushed :
    (queue : ByteQueue) (chunk : List ℕ)
    → IsQueue queue
    → queue.end + length chunk ≤ length queue.buf
    → IsPushed queue chunk (append_chunk chunk (some queue))
append_chunk-IsPushed queue chunk (h, k) room =
    let fits = le→leb (queue.end + length chunk) (length queue.buf) room in
    let next = record queue {
      buf = overwrite queue.end chunk queue.buf;
      end = queue.end + length chunk;
    } in
    simp fits (
      next,
      refl,
      (omega arith, omega (arith, length-overwrite queue.end chunk queue.buf)),
      subarray-overwrite queue.start queue.end (queue.end + length chunk) chunk queue.buf h refl
          room,
    )

-- Moving to the front keeps what is held, and makes room.
abbrev IsMoved : ByteQueue → List ℕ → Option ByteQueue → Type 0
IsMoved queue chunk after =
    (next : ByteQueue) × (after ≡ some next)
    × IsQueue next
    × (contents next ≡ contents queue)
    × (next.end + length chunk ≤ length next.buf)

length-roomy :
    (queue : ByteQueue) (chunk : List ℕ)
    → queue.end - queue.start + length chunk ≤ length (roomy queue chunk)
length-roomy queue chunk =
    elim (Bool-cases (ltb (length queue.buf) (queue.end - queue.start + length chunk))) [
      | inl e ↦
          simp
            (e, length-zeros (max (length queue.buf * 2) (queue.end - queue.start + length chunk)))
            (omega arith)
      | inr n ↦ simp n (ground arith)
    ]

moved-IsMoved :
    (queue : ByteQueue) (chunk : List ℕ) → IsQueue queue → IsMoved queue chunk (moved queue chunk)
unfolding subarray
moved-IsMoved queue chunk (h, k) =
    let held = subarray queue.start queue.end queue.buf in
    let long = length-subarray queue.start queue.end queue.buf h k in
    let room = length-roomy queue chunk in
    let base = roomy queue chunk in
    let fits = le→leb (0 + length held) (length base) (omega arith) in
    let next : ByteQueue = record {
      buf = overwrite 0 held base;
      start = 0;
      end = queue.end - queue.start;
    } in
    simp fits (
      next,
      refl,
      (omega arith, omega (arith, length-overwrite 0 held base)),
      subarray-overwrite 0 0 (queue.end - queue.start) held base (omega arith) (omega arith)
          (omega arith),
      omega (arith, length-overwrite 0 held base),
    )

pub push-IsPushed :
    (queue : ByteQueue) (chunk : List ℕ) → IsQueue queue → IsPushed queue chunk (push queue chunk)
unfolding push
push-IsPushed queue chunk h =
    elim (Bool-cases (ltb (length queue.buf) (queue.end + length chunk))) [
      | inr n ↦ simp n (append_chunk-IsPushed queue chunk h (ground arith))
      | inl e ↦
          let (mid, is_moved, valid, same, room) = moved-IsMoved queue chunk h in
          let (next, is_next, valid_next, longer) = append_chunk-IsPushed mid chunk valid room in
          simp e (
            next,
            ap (append_chunk chunk) is_moved ∙ is_next,
            valid_next,
            longer ∙ ap (λ l. l ++ chunk) same,
          )
    ]

-- One step of the search over a list.
index_of_crlf-here :
    (x y : ℕ) (s : List ℕ) → (x == 13 && y == 10) ≡ true → Reader.index_of_crlf (x ∷ y ∷ s) ≡ some 0
unfolding Reader.index_of_crlf
index_of_crlf-here x y s h = simp h refl

index_of_crlf-later :
    (x y : ℕ) (s : List ℕ)
    → (x == 13 && y == 10) ≡ false
    → Reader.index_of_crlf (x ∷ y ∷ s) ≡ next_index (Reader.index_of_crlf (y ∷ s))
unfolding Reader.index_of_crlf
index_of_crlf-later x y s h = simp h refl

abbrev shifted : ℕ → Option ℕ → Option ℕ
shifted n none = none
shifted n (some m) = some (n + m)

shifted-next_index : (n : ℕ) (o : Option ℕ) → shifted (n + 1) o ≡ shifted n (next_index o)
shifted-next_index n none = refl
shifted-next_index n (some m) = ap some (omega arith)

module _ (queue : ByteQueue) (h : IsQueue queue) where
  crlf_from-contents :
      (fuel i : ℕ)
      → queue.start ≤ i
      → queue.end ≡ i + fuel
      → crlf_from queue fuel i
        ≡ shifted (i - queue.start) (Reader.index_of_crlf (subarray i queue.end queue.buf))
  unfolding crlf_from Reader.index_of_crlf
  crlf_from-contents zero i k e = simp (subarray_none i queue.end queue.buf (omega arith)) refl
  crlf_from-contents (suc fuel) i k e = elim (Bool-cases (ltb (i + 1) queue.end)) [
    | inr n ↦
        simp
          (
            n,
            subarray_first i queue.end queue.buf (omega arith) h.1,
            subarray_none (suc i) queue.end queue.buf (ground arith),
          )
          refl
    | inl m ↦
        let x = byte_at i queue.buf in
        let y = byte_at (i + 1) queue.buf in
        let after = subarray (i + 1 + 1) queue.end queue.buf in
        let second = subarray_next (i + 1) queue.end queue.buf (ltb→lt (i + 1) queue.end m) h.1 in
        let both = subarray_next i queue.end queue.buf (omega arith) h.1 ∙ ap (λ s. x ∷ s) second in
        elim (Bool-cases (x == 13 && y == 10)) [
          | inl t ↦
              simp (m, t)
                (ap some (omega arith)
                  ∙ sym (
                      ap (λ s. shifted (i - queue.start) (Reader.index_of_crlf s)) both
                      ∙ ap (shifted (i - queue.start)) (index_of_crlf-here x y after t)))
          | inr f ↦
              simp (m, f)
                (crlf_from-contents fuel (i + 1) (omega arith) (omega arith)
                  ∙ ap
                      (λ n. shifted n (Reader.index_of_crlf (subarray (i + 1) queue.end queue.buf)))
                      (omega arith)
                  ∙ shifted-next_index (i - queue.start)
                      (Reader.index_of_crlf (subarray (i + 1) queue.end queue.buf))
                  ∙ ap (λ s. shifted (i - queue.start) (next_index (Reader.index_of_crlf s))) second
                  ∙ sym (
                      ap (λ s. shifted (i - queue.start) (Reader.index_of_crlf s)) both
                      ∙ ap (shifted (i - queue.start)) (index_of_crlf-later x y after f)))
        ]
  ]

-- The search in the buffer is the search in what it holds.
pub index_of_crlf-contents :
    (queue : ByteQueue)
    → IsQueue queue
    → index_of_crlf queue ≡ Reader.index_of_crlf (contents queue)
unfolding index_of_crlf
index_of_crlf-contents queue h =
    crlf_from-contents queue h (queue.end - queue.start) queue.start (omega arith)
      (omega (arith, h.0))
    ∙ ap (λ n. shifted n (Reader.index_of_crlf (contents queue))) (omega arith)
    ∙ shifted-none (Reader.index_of_crlf (contents queue))
  where
    shifted-none : (o : Option ℕ) → shifted 0 o ≡ o
    shifted-none none = refl
    shifted-none (some m) = ap some (omega arith)

-- Taking no more than is held.
abbrev pub IsTaken : ByteQueue → ℕ → Type 0
IsTaken queue n =
    (taken queue n ≡ take n (contents queue))
    × IsQueue (rest_after queue n)
    × (contents (rest_after queue n) ≡ drop n (contents queue))

pub rest_after-IsTaken :
    (queue : ByteQueue) (n : ℕ) → IsQueue queue → n ≤ length (contents queue) → IsTaken queue n
unfolding subarray
rest_after-IsTaken queue n (h, k) few =
    let long = length-subarray queue.start queue.end queue.buf h k in
    let (front, back) =
      subarray-take n queue.start (queue.start + n) queue.end queue.buf refl (omega arith) k in
    elim (Bool-cases (queue.start + n == queue.end)) [
      | inl e ↦
          let same = (==_iff (queue.start + n) queue.end).0 e in
          simp e (
            front,
            (omega arith, omega arith),
            sym (subarray_none (queue.start + n) queue.end queue.buf (omega (arith, same))) ∙ back,
          )
      | inr f ↦ simp f (front, (omega arith, k), back)
    ]
