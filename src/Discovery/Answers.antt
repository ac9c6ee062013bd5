-- ===== src/Discovery/Answers.antt =====
-- When a lookup says that nothing is published, and where a key comes from.
use crypt_mail.Prelude.{
  ◌≡◌, ◌≢◌, ◌⊎◌, Bool, false, Option, List, map, All, In, Text, codes, includes, Locale, canonical,
}
use crypt_mail.Discovery.{
  FailCode, Fetched, absent, served, fetch_key, wkd, LookupEnd, found, nothing_published,
  lookup_failed, vks_lookup_url, wkd_urls, try_sources, attempts_for,
}
use crypt_mail.Discovery.Responses.{IsAbsence, HasKey}

module _ (ask : Text → Fetched) where
  -- No source after VKS gave a key.
  abbrev pub NoneServed : List Text → Type 0
  NoneServed = All (λ url. (armored : Text) → fetch_key (ask url) ≢ served armored)

  -- The rest of the loop, over the directories of the domain.
  abbrev through_wkd : List Text → Bool → Option FailCode → LookupEnd
  through_wkd urls = try_sources ask (map (λ (url : Text). (url, wkd)) urls)

module _ (loc : Locale) (encode hash : Text → Text) (ask : Text → Fetched) (email : Text) where
  -- What each end of a lookup rests on, by what `fetch_key` made of each response.
  abbrev pub RestsOnAnswer : LookupEnd → Type 0
  RestsOnAnswer nothing_published =
      (includes (canonical loc email) (codes "@") ≡ false)
      ⊎ (fetch_key (ask (vks_lookup_url loc encode hash (canonical loc email))) ≡ absent)
        × NoneServed ask (wkd_urls loc encode hash (canonical loc email))
  RestsOnAnswer (found armored source) =
      (url : Text) × In (url, source) (attempts_for loc encode hash ask (canonical loc email))
      × (fetch_key (ask url) ≡ served armored)
  RestsOnAnswer (lookup_failed code) =
      fetch_key (ask (vks_lookup_url loc encode hash (canonical loc email))) ≢ absent

module _ (loc : Locale) (encode hash : Text → Text) (ask : Text → Fetched) (email : Text) where
  -- The response of the verifying keyserver.
  abbrev first_response : Fetched
  first_response = ask (vks_lookup_url loc encode hash (canonical loc email))

  -- What each end of a lookup rests on, by the responses themselves.
  abbrev pub RestsOn : LookupEnd → Type 0
  RestsOn nothing_published =
      (includes (canonical loc email) (codes "@") ≡ false)
      ⊎ IsAbsence first_response
        × All (λ url. ¬ HasKey (ask url)) (wkd_urls loc encode hash (canonical loc email))
  RestsOn (found armored source) =
      (url : Text) × In (url, source) (attempts_for loc encode hash ask (canonical loc email))
      × HasKey (ask url)
      × (fetch_key (ask url) ≡ served armored)
  RestsOn (lookup_failed code) = ¬ IsAbsence first_response
