-- ===== src/ImapWire/Tests.antt =====
-- Arguments and responses at concrete inputs.
use crypt_mail.Prelude.{ℕ, ◌≡◌, refl, List, [], ◌∷◌, ◌++◌, All, none, some, Text, codes}
use crypt_mail.ImapWire.{word, octets, nothing, nested, end, value, line, bytes, tokenize}
use crypt_mail.ImapWire.Responses.{parse_response}
use crypt_mail.ImapWire.Reader.{new_reader, push, index_of_crlf}
use crypt_mail.ImapWire.Reader.Chunks.{push_each, all_bytes, push_each-all_bytes}
use crypt_mail.ImapWire.Reader.Frames.{responses_of, push_each-wire}
use crypt_mail.ImapWire.Reader.Wire.{Frame, IsFrame}
use crypt_mail.ImapWire.UidSet.{has_uid, uid_runs, uid_set}
use crypt_mail.ImapWire.UidSet.Runs.{is_covered, AreRuns, uid_runs-AreRuns}
use crypt_mail.Samples.{ascii}

-- A section with spaces is one atom, and the bytes of a literal stand where its marker was.
tokenize_test :
    tokenize ascii
      (line (codes "(A BODY[H (F)] NIL {2}") ∷ bytes (1 ∷ 2 ∷ []) ∷ line (codes ")") ∷ [])
    ≡ value
        (nested (
          value
            (word (codes "A"))
            (value (word (codes "BODY[H (F)]")) (value nothing (value (octets (1 ∷ 2 ∷ [])) end)))))
        end
unfolding tokenize crypt_mail.ImapWire.tokenize_parts crypt_mail.ImapWire.tokenize_part
    crypt_mail.ImapWire.tokenize_line crypt_mail.ImapWire.step crypt_mail.ImapWire.atom_piece
    crypt_mail.ImapWire.is_size crypt_mail.Prelude.text_eq crypt_mail.ImapWire.atom_value
tokenize_test = refl

abbrev password : Text
password = codes "a\"b\\c"

-- `A {2}` with two bytes that are a line end, then `)`, in three chunks.
abbrev fetched : List Frame
fetched =
    record {
      segments = record { head = codes "* 1 FETCH (A {2}"; literal = 13 ∷ 10 ∷ [] } ∷ [];
      last = codes ")";
    }
    ∷ []

abbrev chunks : List (List ℕ)
chunks = codes "* 1 FETCH (A {2" ∷ (codes "}" ++ 13 ∷ 10 ∷ 13 ∷ []) ∷ (10 ∷ 41 ∷ 13 ∷ 10 ∷ []) ∷ []

fetched_framed : All IsFrame fetched
unfolding index_of_crlf crypt_mail.ImapWire.Reader.literal_size crypt_mail.ImapWire.is_size
    crypt_mail.Prelude.text_eq crypt_mail.ImapWire.Responses.number_of
fetched_framed = ((((refl, refl), tt), refl, refl), tt)

push_each-wire_example :
    push_each ascii new_reader chunks
    ≡ record { reader = new_reader; responses = responses_of ascii fetched }
push_each-wire_example = push_each-wire ascii fetched chunks fetched_framed refl

push_each-all_bytes_example :
    push_each ascii new_reader chunks ≡ push ascii new_reader (all_bytes chunks)
push_each-all_bytes_example = push_each-all_bytes ascii chunks

abbrev uids : List ℕ
uids = 5 ∷ 4 ∷ 3 ∷ 1 ∷ 3 ∷ []

uid_set_test : uid_set uids ≡ codes "1,3:5"
unfolding uid_set crypt_mail.Prelude.join uid_runs crypt_mail.Prelude.sort_by
    crypt_mail.ImapWire.UidSet.runs_from crypt_mail.Prelude.decimal
uid_set_test = refl

uid_runs-AreRuns_example : (is_covered 2 (uid_runs uids) ≡ has_uid 2 uids) × AreRuns (uid_runs uids)
uid_runs-AreRuns_example = uid_runs-AreRuns uids 2

-- A status with its code, and a number before the keyword.
parse_response_test : parse_response ascii (line (codes "a1 ok [X 3] done") ∷ []) ≡ record {
  tag = codes "a1";
  kind = codes "OK";
  num = none;
  code = some (codes "X 3");
  text = codes "done";
  values = end;
}
unfolding parse_response crypt_mail.Prelude.text_eq crypt_mail.ImapWire.Responses.take_word
    crypt_mail.ImapWire.Responses.cut_at crypt_mail.Prelude.has_text
    crypt_mail.ImapWire.Responses.split_code crypt_mail.Prelude.is_space
parse_response_test = refl
