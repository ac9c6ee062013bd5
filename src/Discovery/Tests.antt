-- ===== src/Discovery/Tests.antt =====
-- A lookup at a concrete input: VKS has no key, and no directory of the domain answers.
use crypt_mail.Prelude.{false, [], if◌then◌else◌, Text, text_eq}
use crypt_mail.Samples.{ascii, ann}
use crypt_mail.Discovery.{Fetched, responded, threw, vks_lookup_url}

abbrev same_text : Text → Text
same_text t = t

abbrev vks_only : Text → Fetched
vks_only url =
    if text_eq url (vks_lookup_url ascii same_text same_text ann)
    then responded (record { status = 404; ok = false; bytes = [] })
    else threw false false
