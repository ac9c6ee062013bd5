-- ===== src/ByteQueue/Tests.antt =====
-- The buffer at concrete inputs.
use crypt_mail.Prelude.{[], ◌∷◌, List, arith}
use crypt_mail.ByteQueue.{new_queue}
use crypt_mail.ByteQueue.Refining.{
  QueueCall, add, remove_first, find_crlf, on_list, on_buffer, Refines, on_buffer-on_list,
}

abbrev calls : List QueueCall
calls = add (65 ∷ 13 ∷ []) ∷ find_crlf ∷ add (10 ∷ []) ∷ find_crlf ∷ remove_first 2 ∷ []

on_buffer-on_list_example : Refines (on_buffer new_queue calls) (on_list [] calls)
on_buffer-on_list_example = on_buffer-on_list calls (omega arith, tt)
