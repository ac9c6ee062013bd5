-- ===== src/Discovery.antt =====
-- Looking up a public key by address (app/src/keys/discovery.ts): the verifying keyserver (VKS) first, then
-- the directory of the address's own domain (WKD). The network, the hash of the local part (zBase32Sha1)
-- and encodeURIComponent are given.
pub mod Answers
pub mod Responses
mod Tests
use crypt_mail.Prelude.{
  ℕ, ◌+◌, Bool, true, false, ◌||◌, not, Option, none, some, List, [], ◌∷◌, ◌++◌, map, ltb, ◌==◌,
  if◌then◌else◌, Text, codes, starts_with, includes, join, Locale, canonical,
}
use crypt_mail.Base64.{bytes_to_base64}

pub data FailCode : Type 0 where
  network server timeout : FailCode

pub record Response : Type 0 where
  pub status : ℕ
  pub ok : Bool
  pub bytes : List ℕ

-- What `fetch` came to: a response, or a throw, with whether our own deadline had passed and whether it
-- is an abort.
pub data Fetched : Type 0 where
  responded : Response → Fetched
  threw : Bool → Bool → Fetched

pub data Requested : Type 0 where
  response : Response → Requested
  lost : FailCode → Requested

unfoldable pub request : Fetched → Requested
request (responded r) = response r
request (threw expired aborted) = lost (if expired || aborted then timeout else network)

unfoldable pub armor_begin : Text
armor_begin = codes "-----BEGIN PGP PUBLIC KEY BLOCK-----"

unfoldable pub armor_end : Text
armor_end = codes "-----END PGP PUBLIC KEY BLOCK-----"

-- ASCII-only decode; `none` where a byte is no ASCII character.
unfoldable pub try_decode_ascii : List ℕ → Option Text
try_decode_ascii [] = some []
try_decode_ascii (b ∷ bytes) =
    let rest = try_decode_ascii bytes in if ltb 126 b then none else cons_decoded b rest
  where
    cons_decoded : ℕ → Option Text → Option Text
    cons_decoded b none = none
    cons_decoded b (some decoded) = some (b ∷ decoded)

-- s.slice(s.indexOf(mark)), where the mark occurs.
unfoldable pub from_mark_on : Text → Text → Option Text
from_mark_on mark [] = none
from_mark_on mark (c ∷ s) =
    let rest = from_mark_on mark s in if starts_with (c ∷ s) mark then some (c ∷ s) else rest

-- base64.match(/.{1,64}/g) ?? [], from a place in a line.
abbrev cons_char : ℕ → List Text → List Text
cons_char c [] = (c ∷ []) ∷ []
cons_char c (line ∷ lines) = (c ∷ line) ∷ lines

unfoldable pub lines_of_64 : ℕ → Text → List Text
lines_of_64 place [] = []
lines_of_64 place (c ∷ s) =
    let next = lines_of_64 (place + 1) s in
    let fresh = lines_of_64 0 s in if place == 63 then (c ∷ []) ∷ fresh else cons_char c next

unfoldable pub armor_key : Text → Text
armor_key base64 = join (codes "\n") (armor_begin ∷ [] ∷ (lines_of_64 0 base64 ++ armor_end ∷ []))

-- One source: a definite absence, a key, or a failure.
pub data KeyAnswer : Type 0 where
  absent : KeyAnswer
  served : Text → KeyAnswer
  failed : FailCode → KeyAnswer

abbrev binary_key : List ℕ → KeyAnswer
binary_key [] = absent
binary_key (b ∷ bytes) = served (armor_key (bytes_to_base64 (b ∷ bytes)))

abbrev pub armored_or_binary : List ℕ → Option Text → KeyAnswer
armored_or_binary bytes none = binary_key bytes
armored_or_binary bytes (some armored) = served armored

abbrev pub in_text : Option Text → Option Text
in_text none = none
in_text (some decoded) = from_mark_on armor_begin decoded

unfoldable pub key_in : List ℕ → KeyAnswer
key_in bytes = armored_or_binary bytes (in_text (try_decode_ascii bytes))

abbrev key_from : Requested → KeyAnswer
key_from (lost code) = failed code
key_from (response r) =
    if r.status == 404 then absent else if not r.ok then failed server else key_in r.bytes

unfoldable pub fetch_key : Fetched → KeyAnswer
fetch_key fetched = key_from (request fetched)

pub data DirectorySource : Type 0 where
  vks wkd : DirectorySource

pub data LookupEnd : Type 0 where
  found : Text → DirectorySource → LookupEnd
  nothing_published : LookupEnd
  lookup_failed : FailCode → LookupEnd

abbrev pub is_vks : DirectorySource → Bool
is_vks vks = true
is_vks wkd = false

-- The end of the loop: a failure counts only where VKS did not answer.
abbrev pub end_of : Bool → Option FailCode → LookupEnd
end_of true failure = nothing_published
end_of false none = nothing_published
end_of false (some code) = lookup_failed code

-- email.split('@'), its first two parts
abbrev before_at : Text → Text
before_at [] = []
before_at (c ∷ s) = let rest = before_at s in if c == 64 then [] else c ∷ rest

abbrev after_at : Text → Text
after_at [] = []
after_at (c ∷ s) = let rest = after_at s in if c == 64 then before_at s else rest

module _ (loc : Locale) (encode hash : Text → Text) where
  unfoldable pub vks_lookup_url : Text → Text
  vks_lookup_url email =
      codes "https://keys.openpgp.org/vks/v1/by-email/" ++ encode (canonical loc email)

  abbrev wkd_for : Text → Text → List Text
  wkd_for [] domain = []
  wkd_for (c ∷ s) [] = []
  wkd_for (c ∷ s) (d ∷ t) =
      let local = c ∷ s in
      let domain = d ∷ t in
      let query = codes "?l=" ++ encode local in
      (codes "https://openpgpkey."
        ++ (domain
            ++ (codes "/.well-known/openpgpkey/"
                ++ (domain ++ (codes "/hu/" ++ (hash local ++ query))))))
      ∷ (codes "https://"
          ++ (domain ++ (codes "/.well-known/openpgpkey/hu/" ++ (hash local ++ query))))
      ∷ []

  unfoldable pub wkd_urls : Text → List Text
  wkd_urls email = wkd_for (before_at (canonical loc email)) (after_at (canonical loc email))

module _ (ask : Text → Fetched) where
  abbrev pub after_answer :
      KeyAnswer
      → DirectorySource
      → (Bool → Option FailCode → LookupEnd)
      → Bool
      → Option FailCode
      → LookupEnd
  after_answer (served armored) source rest answered failure = found armored source
  after_answer absent source rest answered failure = rest (is_vks source || answered) failure
  after_answer (failed code) source rest answered failure = rest answered (some code)

  -- for (const attempt of attempts)
  unfoldable pub try_sources : List (Text × DirectorySource) → Bool → Option FailCode → LookupEnd
  try_sources [] answered failure = end_of answered failure
  try_sources ((url, source) ∷ attempts) answered failure =
      after_answer (fetch_key (ask url)) source (try_sources attempts) answered failure

module _ (loc : Locale) (encode hash : Text → Text) (ask : Text → Fetched) where
  abbrev pub attempts_for : Text → List (Text × DirectorySource)
  attempts_for address =
      (vks_lookup_url loc encode hash address, vks)
      ∷ map (λ (url : Text). (url, wkd)) (wkd_urls loc encode hash address)

  unfoldable pub lookup_key : Text → LookupEnd
  lookup_key email =
      let address = canonical loc email in
      if includes address (codes "@")
      then try_sources ask (attempts_for address) false none
      else nothing_published
