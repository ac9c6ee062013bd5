-- ===== src/Lib.antt =====
-- CryptMail: a mail client whose mail is encrypted end to end (app/src, TypeScript).
--
-- The parts and their files here:
--   Keyring       app/src/store/keyring.ts: the keys learned for each address. upsertKey learns one,
--                 chooseKey lets the user decide between several, findKey looks one up.
--   Recipients    app/src/state/recipients.ts: what the keyring says of each recipient of a message.
--   Outbox        app/src/outbox/outbox.ts: messages that wait for a time or for keys; it asks
--                 Recipients whether a waiting message can go.
--   Scheduler     app/src/state/scheduler.ts: the tick that sends what is due or can go (run,
--                 drainHeld, forget) and what the user asks of the queue; sending and the key
--                 directory are its parameters Deliver and discover, of which only the effect on the
--                 outbox and on the keyring is followed, and a tick has one time stamp.
--   Sending       app/src/state/send.ts and app/src/store/inviteStore.ts: deliver seals and sends a message,
--                 holds it, or refuses it; Types has the state and the services (World), Invites the
--                 invites to people without a key. Its deliver_held is one delivery as the
--                 scheduler asks for it, from any given state of the send path: what the deliveries of one
--                 tick leave to each other of keyring, invites and archive is not followed. with_discovery
--                 of Learned makes contacts.discover one of its services.
--   Discovery, Learning   app/src/keys/discovery.ts, app/src/keys/autocrypt.ts and
--                 app/src/state/contacts.ts: looking a key up, and what is learned of it.
--   CheckResult, RateLimit   app/src/outbox/checkResult.ts and app/src/mail/rateLimit.ts.
--   NewMail, Reply, Mbox   app/src/notifications/newMail.ts, app/src/mail/reply.ts and
--                 app/src/mail/mbox.ts: what is announced, the draft of a reply, and the export.
--   Attachment, Drafts, Mail   app/src/mail/attachment.ts, app/src/drafts/drafts.ts and the rows of
--                 app/src/mail/types.ts, which the other parts carry.
--   ImapWire, ByteQueue   app/src/mail/imapWire.ts and the buffer of app/src/mail/socket.ts: responses cut out
--                 of the bytes of a connection (Reader, Responses), the arguments of responses and
--                 commands, and UID sets. Reader has a list of bytes where the code has a ByteQueue.
--   Certificate   app/src/mail/socket.ts and verifyPeer of app/src/mail/tcpSocket.ts.
--   Flags, Threads   app/src/mail/flags.ts and app/src/threads/threads.ts: changes of the list of mail,
--                 and its conversations.
--   Labels, Snooze, Swipe   app/src/labels/labels.ts, app/src/snooze/snooze.ts, app/src/swipe/swipe.ts.
--   Search, Rules   app/src/search/search.ts and app/src/rules/rules.ts: what may be read of an
--                 encrypted message is what this device decrypted and put into the search index.
--   Notifications   app/src/notifications/policy.ts: what a notification may say.
--   AppLock       app/src/applock/appLock.ts, with the base64 and UTF-8 of app/src/lib/base64.ts in Base64.
--   Prelude       lists, texts, maps, sorting, and the locale; Samples holds data of the tests.
--
-- How the code is read. A string is the list of its UTF-16 code units, an object used as a map is a list
-- of keys with values (an insertion replaces in place or appends), and an optional field is an Option.
-- A time stamp is the ISO text that the code compares. Numbers are the natural numbers; sizes, counts
-- and milliseconds stay far below 2^53, where a JavaScript number is exact. What the engine's locale
-- tables decide (toLowerCase, toUpperCase, localeCompare) is the parameter Locale, and where an order is
-- claimed the hypothesis IsCollation says that comparison is a total preorder. The key derivation of the
-- PIN and the test whether a row can be archived are parameters too, and so are the cryptographic core, the
-- mail provider, the archive, the network and the clock, each by what it answers.
--
-- Fuel: the printing of a number in decimal has the number plus one, as each step drops a digit; the
-- loop of retries has one more than there are delays; stripping `Fwd:` has the length of the subject plus one,
-- as each round shortens it; reading a line of an IMAP response has its length, as each round takes a
-- character, and the reader of responses has the length of its queue, as each round takes two bytes.
--
-- Not modelled: screens, storage, the mail protocols beyond the responses of IMAP, MIME, the address book,
-- sign-in, the native core, the spam scores and the HTML reader; the packets of armored keys, whose addresses
-- are an argument of Learning; calendar presets of snoozing; the geometry of a swipe; words that are only
-- displayed, which stand here as the constructors of a type.
pub mod Prelude
pub mod Samples
pub mod Mail
pub mod Certificate
pub mod ByteQueue
pub mod ImapWire
pub mod Keyring
pub mod Recipients
pub mod Base64
pub mod AppLock
pub mod Attachment
pub mod Outbox
pub mod Drafts
pub mod Scheduler
pub mod Sending
pub mod Discovery
pub mod Learning
pub mod CheckResult
pub mod RateLimit
pub mod NewMail
pub mod Reply
pub mod Mbox
pub mod Snooze
pub mod Flags
pub mod Threads
pub mod Labels
pub mod Search
pub mod Rules
pub mod Notifications
pub mod Swipe
