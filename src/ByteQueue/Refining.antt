-- ===== src/ByteQueue/Refining.antt =====
-- The buffer refines a list of bytes: every use of it, call by call.
use crypt_mail.Prelude.{
  ℕ, ◌≤◌, ◌≡◌, refl, sym, ap, ◌∙◌, subst, Option, none, some, List, [], ◌∷◌, ◌++◌, arith, length,
  take,
}
use crypt_mail.ImapWire.Reader
use crypt_mail.ImapWire.Reader.{drop}
use crypt_mail.ByteQueue.{ByteQueue, zeros, new_queue, push, index_of_crlf, taken, rest_after}
use crypt_mail.ByteQueue.Contents.{
  contents, IsQueue, push-IsPushed, index_of_crlf-contents, rest_after-IsTaken,
}
use crypt_mail.ByteQueue.Slices.{subarray_none}

-- A call of the buffer, and what it answers.
pub data QueueCall : Type 0 where
  add : List ℕ → QueueCall
  remove_first : ℕ → QueueCall
  find_crlf : QueueCall

pub data QueueAnswer : Type 0 where
  front : List ℕ → QueueAnswer
  place : Option ℕ → QueueAnswer

abbrev pub Trace : Type 0 → Type 0
Trace State = State × List QueueAnswer

-- The calls on the list of what is held.
abbrev pub and_answer : QueueAnswer → Trace (List ℕ) → Trace (List ℕ)
and_answer answer (held, answers) = (held, answer ∷ answers)

abbrev pub on_list : List ℕ → List QueueCall → Trace (List ℕ)
on_list held [] = (held, [])
on_list held (add chunk ∷ calls) = on_list (held ++ chunk) calls
on_list held (remove_first n ∷ calls) =
    and_answer (front (take n held)) (on_list (drop n held) calls)
on_list held (find_crlf ∷ calls) =
    and_answer (place (Reader.index_of_crlf held)) (on_list held calls)

-- The calls on the buffer; none when one throws.
abbrev pub answered : QueueAnswer → Option (Trace ByteQueue) → Option (Trace ByteQueue)
answered answer none = none
answered answer (some (queue, answers)) = some (queue, answer ∷ answers)

abbrev pub then_on :
    Option ByteQueue → (ByteQueue → Option (Trace ByteQueue)) → Option (Trace ByteQueue)
then_on none rest = none
then_on (some queue) rest = rest queue

abbrev pub on_buffer : ByteQueue → List QueueCall → Option (Trace ByteQueue)
on_buffer queue [] = some (queue, [])
on_buffer queue (add chunk ∷ calls) = then_on (push queue chunk) (λ next. on_buffer next calls)
on_buffer queue (remove_first n ∷ calls) =
    answered (front (taken queue n)) (on_buffer (rest_after queue n) calls)
on_buffer queue (find_crlf ∷ calls) = answered (place (index_of_crlf queue)) (on_buffer queue calls)

-- No more is taken than is held.
abbrev pub AreCalls : List ℕ → List QueueCall → Type 0
AreCalls held [] = Unit
AreCalls held (add chunk ∷ calls) = AreCalls (held ++ chunk) calls
AreCalls held (remove_first n ∷ calls) = (n ≤ length held) × AreCalls (drop n held) calls
AreCalls held (find_crlf ∷ calls) = AreCalls held calls

-- The same answers, and the list is what the buffer holds.
abbrev pub Refines : Option (Trace ByteQueue) → Trace (List ℕ) → Type 0
Refines run (held, answers) =
    (queue : ByteQueue) × (run ≡ some (queue, answers)) × IsQueue queue × (contents queue ≡ held)

answered-Refines :
    (answer same : QueueAnswer) (run : Option (Trace ByteQueue)) (trace : Trace (List ℕ))
    → answer ≡ same
    → Refines run trace
    → Refines (answered answer run) (and_answer same trace)
answered-Refines answer same run (held, answers) e (queue, is_run, valid, holds) =
    (queue, ap (answered answer) is_run ∙ ap (λ a. some (queue, a ∷ answers)) e, valid, holds)

on_buffer-Refines :
    (queue : ByteQueue) (calls : List QueueCall) (held : List ℕ)
    → IsQueue queue
    → contents queue ≡ held
    → AreCalls held calls
    → Refines (on_buffer queue calls) (on_list held calls)
on_buffer-Refines queue [] held valid holds h = (queue, refl, valid, holds)
on_buffer-Refines queue (add chunk ∷ calls) held valid holds h =
    let (next, is_next, valid_next, longer) = push-IsPushed queue chunk valid in
    subst (λ run. Refines run (on_list (held ++ chunk) calls))
      (sym (ap (λ after. then_on after (λ q. on_buffer q calls)) is_next))
      (on_buffer-Refines next calls (held ++ chunk) valid_next (longer ∙ ap (λ l. l ++ chunk) holds)
        h)
on_buffer-Refines queue (remove_first n ∷ calls) held valid holds (few, h) =
    let fits : n ≤ length (contents queue) = subst (λ l. n ≤ length l) (sym holds) few in
    let (first, valid_rest, rest) = rest_after-IsTaken queue n valid fits in
    answered-Refines (front (taken queue n)) (front (take n held))
      (on_buffer (rest_after queue n) calls) (on_list (drop n held) calls)
      (ap front (first ∙ ap (take n) holds))
      (on_buffer-Refines (rest_after queue n) calls (drop n held) valid_rest
        (rest ∙ ap (drop n) holds) h)
on_buffer-Refines queue (find_crlf ∷ calls) held valid holds h =
    answered-Refines (place (index_of_crlf queue)) (place (Reader.index_of_crlf held))
      (on_buffer queue calls) (on_list held calls)
      (ap place (index_of_crlf-contents queue valid ∙ ap Reader.index_of_crlf holds))
      (on_buffer-Refines queue calls held valid holds h)

-- The buffer behaves as the list of the bytes that came and were not taken. In any sequence of chunks added,
-- bytes taken and searches for a line end, from a new buffer on, where no more is taken than is held, nothing
-- throws, whatever the chunks and however the array had to be moved or to grow; every call answers what the
-- list answers, and at the end the buffer holds what the list is.
pub on_buffer-on_list :
    (calls : List QueueCall)
    → AreCalls [] calls
    → Refines (on_buffer new_queue calls) (on_list [] calls)
on_buffer-on_list calls h =
    on_buffer-Refines new_queue calls [] (omega arith, omega arith) nothing_held h
  where
    nothing_held : contents new_queue ≡ []
    nothing_held = subarray_none 0 0 (zeros 4096) (omega arith)
